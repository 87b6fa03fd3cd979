-- ===== src/Cli/Vlans/Printed/Lines.antt =====
-- The lines that list_vlans prints: their tokens, and their width.
use mathlib.Core.List.{append_assoc}
use lisa_user.Base.{
  ℕ, zero, suc, ◌+◌, ◌≤◌, ◌<◌, ◌≡◌, refl, ap, ◌∙◌, Bool, true, false, not, ◌||◌, List, [], ◌∷◌,
  ◌++◌, Text, All, ltb, Bool-cases, Option-cases, inl, inr, arith,
}
use lisa_user.Cli.Vlans.{Bitmap, list_vlans_token, Line, list_lines}
use lisa_user.Cli.Vlans.Listed.{Item, item_text, IsItem}
use lisa_user.Cli.Vlans.Selected.{covers}
use lisa_user.Cli.Vlans.Printed.{Printed, list_vlans_token-Printed}

abbrev pub tokens_of : List Line → List Text
tokens_of [] = []
tokens_of (l ∷ ls) = l.1 ++ tokens_of ls

abbrev pub any_item : List Item → ℕ → Bool
any_item [] v = false
any_item (i ∷ is) v = covers i v || any_item is v

abbrev pub texts : List Item → List Text
texts [] = []
texts (i ∷ is) = item_text i [] ∷ texts is

-- The tokens are those of items that cover exactly the allowed VLANs from `vlan` on.
abbrev pub Covered : Bitmap → ℕ → List Text → List Line → Type 0
Covered bmp vlan line lines =
    (is : List Item) × All IsItem is
    × (tokens_of lines ≡ line ++ texts is)
    × ((v : ℕ) → vlan ≤ v → v < 4095 → any_item is v ≡ not (bmp v))
    × ((v : ℕ) → any_item is v ≡ true → vlan ≤ v)

tokens_nil : (ts : List Text) → ts ++ [] ≡ ts
tokens_nil [] = refl
tokens_nil (t ∷ ts) = ap (λ l. t ∷ l) (tokens_nil ts)

Covered-end :
    (bmp : Bitmap) (vlan : ℕ) (later : Bool) (line : List Text)
    → ((v : ℕ) → vlan ≤ v → v < 4095 → bmp v ≡ true)
    → Covered bmp vlan line ((later, line) ∷ [])
Covered-end bmp vlan later line none_left =
    ([], tt, refl, λ v a b. rw (none_left v a b) refl, λ v t. absurd cc)

-- One more item before those that cover the rest.
covers-step :
    (bmp : Bitmap) (vlan : ℕ) (found : Text × ℕ) (p : Printed bmp vlan found) (is : List Item)
    → ((v : ℕ) → found.1 ≤ v → v < 4095 → any_item is v ≡ not (bmp v))
    → ((v : ℕ) → any_item is v ≡ true → found.1 ≤ v)
    → ((v : ℕ) → vlan ≤ v → v < 4095 → any_item (p.0 ∷ is) v ≡ not (bmp v))
      × ((v : ℕ) → any_item (p.0 ∷ is) v ≡ true → vlan ≤ v)
covers-step bmp vlan found (i, is_item, text, more, bound, exact, within) is cover above = (
  λ v a b. elim (Bool-cases (ltb v found.1)) [
    | inl before ↦
        let bit = exact v a (ground arith) in
        elim (Bool-cases (any_item is v)) [
          | inl e ↦ let high = above v e in absurd (ground arith)
          | inr e ↦ rw (e) (ground (arith, bit))
        ]
    | inr after ↦
        let bit = cover v (ground arith) b in
        elim (Bool-cases (covers i v)) [
          | inl e ↦ let inside = within v e in absurd (ground arith)
          | inr e ↦ rw (e) bit
        ]
  ],
  λ v t. elim (Bool-cases (covers i v)) [
    | inl e ↦ (within v e).0
    | inr e ↦
        let later : any_item is v ≡ true = ground arith in let high = above v later in omega arith
  ],
)

-- Whether the token begins a line or not.
broken-Covered :
    (bmp : Bitmap) (vlan : ℕ) (found : Text × ℕ) (p : Printed bmp vlan found) (rounds : ℕ)
    (later : Bool) (line : List Text) (full : Bool)
    → Covered bmp found.1 (found.0 ∷ []) (list_lines bmp rounds found.1 true (found.0 ∷ []))
    → Covered bmp found.1
        (line ++ (found.0 ∷ []))
        (list_lines bmp rounds found.1 later (line ++ (found.0 ∷ [])))
    → Covered bmp vlan line (elim full as (λ (b : Bool). List Line) [
      | true ↦ (later, line) ∷ list_lines bmp rounds found.1 true (found.0 ∷ [])
      | false ↦ list_lines bmp rounds found.1 later (line ++ (found.0 ∷ []))
    ])
broken-Covered bmp vlan found p rounds later line true (is, items, tokens, cover, above) same =
    let step = covers-step bmp vlan found p is cover above in
    (
      p.0 ∷ is,
      (p.1, items),
      ap (λ ts. line ++ ts) (tokens ∙ ap (λ t. t ∷ texts is) p.2),
      step.0,
      step.1,
    )
broken-Covered bmp vlan found p rounds later line false new (is, items, tokens, cover, above) =
    let step = covers-step bmp vlan found p is cover above in
    (
      p.0 ∷ is,
      (p.1, items),
      tokens ∙ append_assoc line (found.0 ∷ []) (texts is) ∙ ap (λ t. line ++ (t ∷ texts is)) p.2,
      step.0,
      step.1,
    )

pub list_lines-Covered :
    (bmp : Bitmap) (rounds vlan : ℕ) (later : Bool) (line : List Text)
    → 1 ≤ vlan
    → vlan ≤ 4095
    → 4095 ≤ rounds + vlan
    → Covered bmp vlan line (list_lines bmp rounds vlan later line)
unfolding list_lines
list_lines-Covered bmp zero vlan later line low small enough =
    Covered-end bmp vlan later line (λ v a b. absurd (omega arith))
list_lines-Covered bmp (suc rounds) vlan later line low small enough =
    let (ends, finds) = list_vlans_token-Printed bmp vlan low small in
    elim (Option-cases (list_vlans_token bmp vlan)) [
      | inl e ↦ rw (list_lines, e) (Covered-end bmp vlan later line (ends e))
      | inr (found, e) ↦
          let p = finds found e in
          let (i, is_item, text, more, bound, exact, within) = p in
          rw (list_lines, e)
            (broken-Covered bmp vlan found p rounds later line _
              (list_lines-Covered bmp rounds found.1 true (found.0 ∷ []) (omega arith) bound
                (omega arith))
              (list_lines-Covered bmp rounds found.1 later (line ++ (found.0 ∷ [])) (omega arith)
                bound (omega arith)))
    ]
