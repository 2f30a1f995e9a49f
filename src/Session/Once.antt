-- ===== src/Session/Once.antt =====
-- No nonce passes the window of src/session.rs twice, whatever the order of arrival.
use mesh_vpn.Base.{
  ℕ, ◌≡◌, refl, ◌∙◌, Bool, true, false, not, ◌&&◌, List, [], ◌∷◌, arith, Bool-cases, inl, inr,
}
use mesh_vpn.Session.{ReplayWindow, new, check_and_update, accepted}
use mesh_vpn.Session.Exact.{contains, fresh, Stands, check_and_update-Agrees}

unfoldable pub distinct : List ℕ → Bool
distinct [] = true
distinct (x ∷ xs) = not (contains xs x) && distinct xs

pub fresh-contains : (seen : List ℕ) (n : ℕ) → fresh seen n ≡ true → contains seen n ≡ false
unfolding fresh contains
fresh-contains [] n h = refl
fresh-contains (x ∷ xs) n h = ground arith

-- The head of the run, by the verdict on the first nonce.
module _ (w : ReplayWindow) (seen : List ℕ) (n : ℕ) (ns : List ℕ) (s : Stands w seen) where
  accepted-taken :
      fresh seen n ≡ true
      → (accepted w (n ∷ ns) ≡ n ∷ accepted (check_and_update w n).0 ns)
        × Stands (check_and_update w n).0 (n ∷ seen)
  unfolding accepted
  accepted-taken h = (
    rw ((check_and_update-Agrees w seen n s).0 ∙ h),
    rw h at ((check_and_update-Agrees w seen n s).1),
  )

  accepted-dropped :
      fresh seen n ≡ false
      → (accepted w (n ∷ ns) ≡ accepted (check_and_update w n).0 ns)
        × Stands (check_and_update w n).0 seen
  unfolding accepted
  accepted-dropped h = (
    rw ((check_and_update-Agrees w seen n s).0 ∙ h),
    rw h at ((check_and_update-Agrees w seen n s).1),
  )

-- What was accepted is not accepted again.
contains-accepted :
    (ns : List ℕ) (w : ReplayWindow) (seen : List ℕ) (m : ℕ)
    → Stands w seen
    → contains seen m ≡ true
    → contains (accepted w ns) m ≡ false
unfolding contains
contains-accepted [] w seen m s h = unfold accepted in refl
contains-accepted (n ∷ ns) w seen m s h = elim (Bool-cases (fresh seen n)) [
  | inl e ↦
      let (q, s') = accepted-taken w seen n ns s e in
      rw q (
        ground (
          arith,
          fresh-contains seen n e,
          contains-accepted ns (check_and_update w n).0 (n ∷ seen) m s',
        ))
  | inr e ↦
      let (q, s') = accepted-dropped w seen n ns s e in
      rw q (contains-accepted ns (check_and_update w n).0 seen m s' h)
]

distinct-accepted :
    (ns : List ℕ) (w : ReplayWindow) (seen : List ℕ)
    → Stands w seen
    → distinct (accepted w ns) ≡ true
unfolding distinct
distinct-accepted [] w seen s = unfold accepted in refl
distinct-accepted (n ∷ ns) w seen s = elim (Bool-cases (fresh seen n)) [
  | inl e ↦
      let (q, s') = accepted-taken w seen n ns s e in
      rw q (
        ground (
          arith,
          contains-accepted ns (check_and_update w n).0 (n ∷ seen) n s'
              (unfold contains in ground arith),
          distinct-accepted ns (check_and_update w n).0 (n ∷ seen) s',
        ))
  | inr e ↦
      let (q, s') = accepted-dropped w seen n ns s e in
      rw q (distinct-accepted ns (check_and_update w n).0 seen s')
]

-- Of any sequence of nonces that arrive, a new window accepts none twice.
pub distinct-accepted-new : (ns : List ℕ) → distinct (accepted new ns) ≡ true
unfolding new
distinct-accepted-new ns = distinct-accepted ns new [] (refl, refl)
