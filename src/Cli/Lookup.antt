-- ===== src/Cli/Lookup.antt =====
-- What cli_tokenize finds for a token: all the nodes that match, or else the longest start of it that
-- some node has.
use mathlib.Core.Path.{subst}
use lisa_user.Base.{
  ℕ, zero, suc, ◌+◌, ◌≤◌, ◌<◌, ◌≡◌, refl, ap, Bool, true, false, List, [], ◌∷◌, Option, none, some,
  Text, take, length, All, if◌then◌else◌, ◌==◌, leb, Bool-cases, Option-cases, inl, inr, ◌⊎◌, arith,
}
use lisa_user.Cli.{Context, Menu, TokenizeOut}
use lisa_user.Cli.Tokens.{cli_next_token, same_start, token_of}
use lisa_user.Cli.Tokenize.{
  is_match, exact_or, lookup_token, first_with, shorten, registered, tokenize_word, cli_tokenize,
}
use lisa_user.Cli.Reach.{IsAmong}

-- the nodes of a tree that pass a test, in their order
abbrev pub filter : (ℕ → Bool) → List ℕ → List ℕ
filter p [] = []
filter p (i ∷ tree) = if p i then i ∷ filter p tree else filter p tree

lookup_token-filter :
    (menu : Menu) (mask : ℕ) (token : Text) (tree : List ℕ) (j : ℕ) (exact : Option ℕ)
    → j + length tree ≤ 128
    → (lookup_token menu mask token tree j exact).0 ≡ filter (is_match menu mask token) tree
unfolding lookup_token
lookup_token-filter menu mask token [] j exact room = refl
lookup_token-filter menu mask token (i ∷ tree) j exact room =
    let below : leb 128 j ≡ false = ground arith in
    elim (Bool-cases (is_match menu mask token i)) [
      | inl e ↦
          let rest =
            lookup_token-filter menu mask token tree (suc j) (exact_or menu token i exact)
              (omega arith) in
          rw (below, e) (ap (λ l. i ∷ l) rest)
      | inr e ↦ rw (below, e) (lookup_token-filter menu mask token tree j exact (omega arith))
    ]

-- No node of the tree has a name that begins so.
abbrev pub NoneBegins : Menu → Text → List ℕ → Type 0
NoneBegins menu start tree = All (λ i. same_start (length start) start (menu i).name ≡ false) tree

first_with-none :
    (menu : Menu) (start : Text) (tree : List ℕ)
    → first_with menu start tree ≡ none
    → NoneBegins menu start tree
unfolding first_with
first_with-none menu start [] e = tt
first_with-none menu start (i ∷ tree) e =
    elim (Bool-cases (same_start (length start) start (menu i).name)) [
      | inl b ↦ absurd (ground arith)
      | inr b ↦ (b, first_with-none menu start tree (ground arith))
    ]

first_with-some :
    (menu : Menu) (start : Text) (tree : List ℕ) (i : ℕ)
    → first_with menu start tree ≡ some i
    → IsAmong i tree × (same_start (length start) start (menu i).name ≡ true)
unfolding first_with
first_with-some menu start [] i e = absurd cc
first_with-some menu start (x ∷ tree) i e =
    elim (Bool-cases (same_start (length start) start (menu x).name)) [
      | inl b ↦ let this : i ≡ x = ground arith in (inl this, rw (this) b)
      | inr b ↦
          let found = first_with-some menu start tree i (ground arith) in (inr found.0, found.1)
    ]

-- The longest start of the token, shorter than k bytes, that some node's name has, with that node;
-- or nothing of the token, if no node shares its first byte.
abbrev pub IsLongest : Menu → Text → List ℕ → ℕ → ℕ → Option ℕ → Type 0
IsLongest menu token tree k ok partial =
    ((n : ℕ) → ok < n → n < k → NoneBegins menu (take n token) tree)
    × (((ok ≡ 0) × (partial ≡ none))
        ⊎ ((i : ℕ) × (partial ≡ some i)
            × IsAmong i tree
            × (same_start (length (take ok token)) (take ok token) (menu i).name ≡ true)))

IsLongest-longer :
    (menu : Menu) (token : Text) (tree : List ℕ) (k ok : ℕ) (partial : Option ℕ)
    → NoneBegins menu (take k token) tree
    → IsLongest menu token tree k ok partial
    → IsLongest menu token tree (suc k) ok partial
IsLongest-longer menu token tree k ok partial here h = (
  λ n above below. elim (Bool-cases (n == k)) [
    | inl e ↦
        let same : k ≡ n = ground arith in
        subst (λ m. NoneBegins menu (take m token) tree) same here
    | inr e ↦ h.0 n above (ground arith)
  ],
  h.1,
)

shorten-IsLongest :
    (menu : Menu) (token : Text) (tree : List ℕ) (k : ℕ)
    → let shortened = shorten menu token tree k in
      IsLongest menu token tree k shortened.0 shortened.1
unfolding shorten
shorten-IsLongest menu token tree zero = (λ n a b. absurd (omega arith), inl (refl, refl))
shorten-IsLongest menu token tree (suc zero) = (λ n a b. absurd (omega arith), inl (refl, refl))
shorten-IsLongest menu token tree (suc (suc k)) =
    elim (Option-cases (first_with menu (take (suc k) token) tree)) [
      | inl e ↦
          rw (shorten, e)
            (IsLongest-longer menu token tree (suc k) _ _
              (first_with-none menu (take (suc k) token) tree e)
              (shorten-IsLongest menu token tree (suc k)))
      | inr (i, e) ↦
          let (among, begins) = first_with-some menu (take (suc k) token) tree i e in
          rw (shorten, e) (λ n a b. absurd (omega arith), inr (i, refl, among, begins))
    ]

registered-lookup :
    (menu : Menu) (token : Text) (tree : List ℕ) (out : TokenizeOut) (ms found : List ℕ)
    (exact : Option ℕ) (shortened : ℕ × Option ℕ)
    → ms ≡ found
    → IsLongest menu token tree out.len shortened.0 shortened.1
    → let r = registered out ms exact shortened in
      (r.matches ≡ found)
      × (found ≡ [] → IsLongest menu token tree out.len r.ok_len r.partial_match)
unfolding registered
registered-lookup menu token tree out [] found exact shortened e h = (e, λ n. h)
registered-lookup menu token tree out (i ∷ is) found exact shortened e h = (e, λ n. absurd cc)

-- For a token before a tree of at most 128 nodes, the matches of cli_tokenize are the nodes that
-- pass the filter and whose names begin with the token, in their order. If there is none, ok_len is
-- the length of the longest proper start of the token that the name of some node of the tree begins
-- with, filtered or not, and that is the partial match; it is 0, with no partial match, if there is
-- no such start.
pub cli_tokenize-lookup :
    (ctx : Context) (menu : Menu) (buf : Text) (tree : List ℕ) (before : TokenizeOut)
    → length tree ≤ 128
    → (cli_next_token buf before).0 ≡ true
    → let token = token_of buf (cli_next_token buf before).1 in
      let out = (cli_tokenize ctx menu buf (some tree) before).1 in
      (out.matches ≡ filter (is_match menu ctx.node_filter token) tree)
      × (filter (is_match menu ctx.node_filter token) tree ≡ []
          → IsLongest menu token tree
              (cli_next_token buf before).1.len
              out.ok_len
              out.partial_match)
unfolding cli_tokenize tokenize_word
cli_tokenize-lookup ctx menu buf tree before room found =
    let next = cli_next_token buf before in
    let token = token_of buf next.1 in
    rw (found) (
      registered-lookup menu token tree next.1 _ _ _ _
        (lookup_token-filter menu ctx.node_filter token tree 0 _ (omega arith))
        (shorten-IsLongest menu token tree next.1.len))
