-- ===== src/Cdp/Membership.antt =====
-- Which interfaces the daemon has, and what becomes of their neighbours.
use lisa_user.Base.{
  ℕ, ◌+◌, ◌≤◌, ◌≡◌, ◌≢◌, refl, true, false, ◌&&◌, ◌||◌, not, List, [], ◌∷◌, ◌++◌, Option, none,
  some, arith, if◌then◌else◌, ◌==◌, Bool-cases, if-split, inl, inr,
}
use lisa_user.Cdp.Registry.{
  CdpInterface, Registry, SystemAnswers, is_listed, without, moved, matching, others,
  cdpd_register_interface, cdpd_unregister_interface, cdpd_get_interface_status,
}

module _ {ℓ} {Neighbors : Type ℓ} where
  abbrev pub tally : ℕ → List (CdpInterface Neighbors) → ℕ
  tally i [] = 0
  tally i (e ∷ es) = (if i == e.if_index then 1 else 0) + tally i es

  -- No interface stands twice in the two lists.
  abbrev pub IsRegistry : Registry Neighbors → Type 0
  IsRegistry r = (i : ℕ) → tally i r.registered + tally i r.deregistered ≤ 1

  tally-append :
      (i : ℕ) (xs ys : List (CdpInterface Neighbors)) → tally i (xs ++ ys) ≡ tally i xs + tally i ys
  tally-append i [] ys = omega arith
  tally-append i (x ∷ xs) ys = omega (arith, tally-append i xs ys)

  absent-tally :
      (i : ℕ) (es : List (CdpInterface Neighbors)) → is_listed i es ≡ false → tally i es ≡ 0
  unfolding is_listed
  absent-tally i [] absent = refl
  absent-tally i (e ∷ es) absent = ground (arith, absent-tally i es)

  tally-moved :
      (i k sock : ℕ) (es : List (CdpInterface Neighbors))
      → tally k (moved i sock es) + tally k (without i es) ≡ tally k es
  unfolding moved without
  tally-moved i k sock [] = refl
  tally-moved i k sock (e ∷ es) = ground (arith, tally-moved i k sock es)

  tally-matching :
      (i k : ℕ) (es : List (CdpInterface Neighbors))
      → tally k (matching i es) + tally k (others i es) ≡ tally k es
  unfolding matching others
  tally-matching i k [] = refl
  tally-matching i k (e ∷ es) = ground (arith, tally-matching i k es)

  is_listed-others :
      (i : ℕ) (es : List (CdpInterface Neighbors)) → is_listed i (others i es) ≡ false
  unfolding is_listed others
  is_listed-others i [] = refl
  is_listed-others i (e ∷ es) = ground (arith, is_listed-others i es)

  is_listed-apart :
      (i k : ℕ) (es : List (CdpInterface Neighbors))
      → k ≢ i
      → is_listed k (others i es) ≡ is_listed k es
  unfolding is_listed others
  is_listed-apart i k [] apart = refl
  is_listed-apart i k (e ∷ es) apart = ground (arith, is_listed-apart i k es apart)

  is_listed-append :
      (i : ℕ) (xs ys : List (CdpInterface Neighbors))
      → is_listed i (xs ++ ys) ≡ (is_listed i xs || is_listed i ys)
  unfolding is_listed
  is_listed-append i [] ys = refl
  is_listed-append i (x ∷ xs) ys = ground (arith, is_listed-append i xs ys)

  is_listed-moved :
      (i k sock : ℕ) (es : List (CdpInterface Neighbors))
      → is_listed k (moved i sock es) ≡ ((k == i) && is_listed k es)
  unfolding is_listed moved
  is_listed-moved i k sock [] = ground arith
  is_listed-moved i k sock (e ∷ es) = ground (arith, is_listed-moved i k sock es)

  -- cdpd_unregister_interface, where no interface stands twice in the two lists: that stays so, the
  -- interface is no longer enabled, and every other is enabled as it was.
  pub cdpd_unregister_interface-IsRegistry :
      (i : ℕ) (r : Registry Neighbors)
      → IsRegistry r
      → let s = cdpd_unregister_interface i r in
        IsRegistry s
        × (cdpd_get_interface_status i s ≡ false)
        × ((k : ℕ) → k ≢ i → cdpd_get_interface_status k s ≡ cdpd_get_interface_status k r)
  unfolding cdpd_unregister_interface cdpd_get_interface_status
  cdpd_unregister_interface-IsRegistry i r ok = (
    λ k. omega (
      arith,
      ok k,
      tally-append k r.deregistered (matching i r.registered),
      tally-matching i k r.registered,
    ),
    is_listed-others i r.registered,
    λ k apart. is_listed-apart i k r.registered apart,
  )

  -- An abort only where socket, ioctl, malloc or sem_init fails; else the lists that follow.
  abbrev pub Registered :
      SystemAnswers → ℕ → Registry Neighbors → Option (Registry Neighbors) → Type 0
  Registered a i r none =
      (a.inet_socket && a.flags_known && a.switch_socket && a.allocated && a.sem_ready) ≡ false
  Registered a i r (some s) =
      IsRegistry s
      × (cdpd_get_interface_status i s
          ≡ (cdpd_get_interface_status i r || (a.up && a.known && a.switched && a.bound)))
      × ((k : ℕ) → k ≢ i → cdpd_get_interface_status k s ≡ cdpd_get_interface_status k r)

  module _ (a : SystemAnswers) (i : ℕ) (r : Registry Neighbors) (ok : IsRegistry r) where
    unchanged :
        (cdpd_get_interface_status i r || not (a.up && a.known && a.switched && a.bound)) ≡ true
        → Registered a i r (some r)
    unchanged why = (ok, ground arith, λ k apart. refl)

    back_again :
        is_listed i r.registered ≡ false
        → is_listed i r.deregistered ≡ true
        → (a.up && a.known && a.switched && a.bound) ≡ true
        → Registered a i r (
            some (record {
              registered = r.registered ++ moved i a.sock r.deregistered;
              deregistered = without i r.deregistered;
            }))
    unfolding cdpd_get_interface_status
    back_again absent there fine = (
      λ k. omega (
        arith,
        ok k,
        tally-append k r.registered (moved i a.sock r.deregistered),
        tally-moved i k a.sock r.deregistered,
      ),
      ground (
        arith,
        is_listed-append i r.registered (moved i a.sock r.deregistered),
        is_listed-moved i i a.sock r.deregistered,
      ),
      λ k apart. ground (
        arith,
        is_listed-append k r.registered (moved i a.sock r.deregistered),
        is_listed-moved i k a.sock r.deregistered,
      ),
    )

    brand_new :
        is_listed i r.registered ≡ false
        → is_listed i r.deregistered ≡ false
        → (a.up && a.known && a.switched && a.bound) ≡ true
        → let new : CdpInterface Neighbors = record {
          if_index = i;
          sw_sock_fd = a.sock;
          neighbors = [];
        } in
          Registered a i r (some (record r { registered = r.registered ++ (new ∷ []) }))
    unfolding cdpd_get_interface_status is_listed
    brand_new absent missing fine =
        let new : CdpInterface Neighbors = record {
          if_index = i;
          sw_sock_fd = a.sock;
          neighbors = [];
        } in
        (
          λ k. elim (Bool-cases (k == i)) [
            | inl same ↦
                let is_i : k ≡ i = ground arith in
                rw (is_i) (
                  ground (
                    arith,
                    tally-append i r.registered (new ∷ []),
                    absent-tally i r.registered absent,
                    absent-tally i r.deregistered missing,
                  ))
            | inr other ↦ ground (arith, ok k, tally-append k r.registered (new ∷ []))
          ],
          ground (arith, is_listed-append i r.registered (new ∷ [])),
          λ k apart. ground (arith, is_listed-append k r.registered (new ∷ [])),
        )

    -- Behind the tests of the interface itself.
    enabled :
        (a.up && a.known && a.switched) ≡ true
        → Registered a i r (
            if is_listed i r.registered
            then some r
            else if not a.bound
            then some r
            else if is_listed i r.deregistered
            then some (record {
              registered = r.registered ++ moved i a.sock r.deregistered;
              deregistered = without i r.deregistered;
            })
            else if not a.allocated || not a.sem_ready
            then none
            else some (record r {
              registered =
                  r.registered
                  ++ (record { if_index = i; sw_sock_fd = a.sock; neighbors = [] } ∷ []);
            }))
    unfolding cdpd_get_interface_status
    enabled fit =
        if-split (Registered a i r) (is_listed i r.registered) _ _
          (λ present. unchanged (ground arith))
          (λ absent.
            if-split (Registered a i r) (not a.bound) _ _ (λ unbound. unchanged (ground arith))
              (λ bound.
                if-split (Registered a i r) (is_listed i r.deregistered) _ _
                  (λ there. back_again absent there (ground arith))
                  (λ missing.
                    if-split (Registered a i r) (not a.allocated || not a.sem_ready) _ _
                      (λ no_memory. ground arith)
                      (λ memory. brand_new absent missing (ground arith)))))

    -- cdpd_register_interface, where no interface stands twice in the two lists: it aborts only where
    -- one of the sockets, the ioctl for the flags, malloc or sem_init fails, and else that stays so,
    -- the interface is enabled if it was, or if it is up and switched and its socket can be bound,
    -- and every other is enabled as it was.
    pub cdpd_register_interface-IsRegistry : Registered a i r (cdpd_register_interface a i r)
    unfolding cdpd_register_interface cdpd_get_interface_status
    cdpd_register_interface-IsRegistry =
        if-split (Registered a i r) (not a.inet_socket || not a.flags_known) _ _
          (λ no_flags. ground arith)
          (λ flags.
            if-split (Registered a i r) (not a.up) _ _ (λ down. unchanged (ground arith))
              (λ up.
                if-split (Registered a i r) (not a.switch_socket) _ _ (λ no_socket. ground arith)
                  (λ socket.
                    if-split (Registered a i r) (not a.known || not a.switched) _ _
                      (λ no_way. unchanged (ground arith)) (λ way. enabled (ground arith)))))
