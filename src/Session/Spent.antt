-- ===== src/Session/Spent.antt =====
-- The window of src/session.rs over the calls that follow: a nonce that it has accepted stays refused.
use mesh_vpn.Base.{
  ℕ, suc, ◌<◌, ◌≡◌, refl, sym, subst, ◌∙◌, if◌then◌else◌, Bool, true, false, List, [], ◌∷◌, arith,
  Bool-cases, inl, inr,
}
use mesh_vpn.Session.{ReplayWindow, new, check_and_update}
use mesh_vpn.Session.Exact.{
  contains, contains_above, highest, fresh, Stands, check_and_update-Agrees,
}
use mesh_vpn.Session.Once.{fresh-contains}

-- The window has recorded exactly the nonces of some sequence.
unfoldable pub HasHistory : ReplayWindow → Type 0
HasHistory w = (seen : List ℕ) × Stands w seen

-- One of them is `n`.
unfoldable pub IsSpent : ℕ → ReplayWindow → Type 0
IsSpent n w = (seen : List ℕ) × Stands w seen × (contains seen n ≡ true)

pub new-HasHistory : HasHistory new
unfolding HasHistory new
new-HasHistory = ([], (refl, refl))

contains-if :
    (b : Bool) (n m : ℕ) (seen : List ℕ)
    → contains seen n ≡ true
    → contains (if b then m ∷ seen else seen) n ≡ true
unfolding contains
contains-if b n m seen h = ground arith

contains_first :
    (b : Bool) (n : ℕ) (seen : List ℕ) → b ≡ true → contains (if b then n ∷ seen else seen) n ≡ true
unfolding contains
contains_first b n seen h = ground arith

pub check_and_update-HasHistory :
    (w : ReplayWindow) (m : ℕ) → HasHistory w → HasHistory (check_and_update w m).0
unfolding HasHistory
check_and_update-HasHistory w m (seen, s) = (_, (check_and_update-Agrees w seen m s).1)

-- A nonce that a call accepts is spent.
pub check_and_update-accepted :
    (w : ReplayWindow) (n : ℕ)
    → HasHistory w
    → (check_and_update w n).1 ≡ true
    → IsSpent n (check_and_update w n).0
unfolding HasHistory IsSpent
check_and_update-accepted w n (seen, s) h =
    let agrees = check_and_update-Agrees w seen n s in
    (_, agrees.1, contains_first (fresh seen n) n seen (sym agrees.0 ∙ h))

-- A spent nonce stays spent, whatever nonce arrives.
pub check_and_update-IsSpent :
    (w : ReplayWindow) (n m : ℕ) → IsSpent n w → IsSpent n (check_and_update w m).0
unfolding IsSpent
check_and_update-IsSpent w n m (seen, s, h) =
    (_, (check_and_update-Agrees w seen m s).1, contains-if (fresh seen m) n m seen h)

-- A spent nonce is refused.
pub check_and_update-refused :
    (w : ReplayWindow) (n : ℕ) → IsSpent n w → (check_and_update w n).1 ≡ false
unfolding IsSpent
check_and_update-refused w n (seen, s, h) = elim (Bool-cases (fresh seen n)) [
  | inl e ↦ absurd (ground (arith, fresh-contains seen n e))
  | inr e ↦ (check_and_update-Agrees w seen n s).0 ∙ e
]

-- Every recorded nonce is below `n`.
abbrev pub AllBelow : ℕ → List ℕ → Type 0
AllBelow n [] = Unit
AllBelow n (x ∷ seen) = highest (x ∷ seen) < n

unfoldable pub IsBehind : ℕ → ReplayWindow → Type 0
IsBehind n w = (seen : List ℕ) × Stands w seen × AllBelow n seen

pub new-IsBehind : IsBehind 0 new
unfolding IsBehind new
new-IsBehind = ([], (refl, refl), tt)

fresh_above : (n : ℕ) (seen : List ℕ) → AllBelow n seen → fresh seen n ≡ true
unfolding fresh
fresh_above n [] h = refl
fresh_above n (x ∷ seen) h = ground (arith, contains_above (x ∷ seen) n h)

AllBelow-suc : (n : ℕ) (seen : List ℕ) → AllBelow n seen → AllBelow (suc n) (n ∷ seen)
unfolding highest
AllBelow-suc n [] h = omega arith
AllBelow-suc n (x ∷ seen) h = omega (arith, h)

AllBelow-weaken : (n : ℕ) (seen : List ℕ) → AllBelow n seen → AllBelow (suc n) seen
AllBelow-weaken n [] h = tt
AllBelow-weaken n (x ∷ seen) h = omega (arith, h)

pub IsBehind-weaken : (n : ℕ) (w : ReplayWindow) → IsBehind n w → IsBehind (suc n) w
unfolding IsBehind
IsBehind-weaken n w (seen, s, b) = (seen, s, AllBelow-weaken n seen b)

-- A nonce above all that were recorded is accepted.
pub check_and_update-next :
    (w : ReplayWindow) (n : ℕ)
    → IsBehind n w
    → ((check_and_update w n).1 ≡ true) × IsBehind (suc n) (check_and_update w n).0
unfolding IsBehind
check_and_update-next w n (seen, s, b) =
    let agrees = check_and_update-Agrees w seen n s in
    let new_one = fresh_above n seen b in
    (
      agrees.0 ∙ new_one,
      (
        n ∷ seen,
        subst (λ x. Stands (check_and_update w n).0 (if x then n ∷ seen else seen)) new_one
            agrees.1,
        AllBelow-suc n seen b,
      ),
    )
