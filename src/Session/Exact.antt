-- ===== src/Session/Exact.antt =====
-- The window of src/session.rs against its contract: a nonce is accepted exactly when it was not
-- accepted before and lies less than a window below the highest nonce accepted.
use mathlib.Core.Path.{subst₂}
use mesh_vpn.Base.{
  ℕ, ◌+◌, ◌-◌, ◌%◌, ◌≤◌, ◌<◌, ◌≡◌, refl, sym, ap, ◌∙◌, ◌≢◌, Bool, true, false, not, ◌&&◌, ◌||◌,
  List, [], ◌∷◌, ltb, leb, ◌==◌, if◌then◌else◌, length, replicate, arith, max, Bool-cases, inl, inr,
  dec_lt, ℕ_discrete, ap₂,
}
use mesh_vpn.Session.{
  window_bits, ReplayWindow, new, get_bit, set_bit, clear_bits, advance, check_and_update, verdicts,
}
use mesh_vpn.Session.Window.{
  length-set_bit, set_bit-same, set_bit-other, length-clear_bits, clear_bits-other, clear_bits-same,
  get_bit-zero,
}

-- The specification keeps the accepted nonces, newest first.
unfoldable pub contains : List ℕ → ℕ → Bool
contains [] n = false
contains (x ∷ xs) n = x == n || contains xs n

unfoldable pub highest : List ℕ → ℕ
highest [] = 0
highest (x ∷ xs) = max x (highest xs)

-- Not accepted before, and not too old; the first nonce is never too old.
unfoldable pub fresh : List ℕ → ℕ → Bool
unfolding contains highest
fresh [] n = true
fresh (x ∷ seen) n = not (contains (x ∷ seen) n) && ltb (highest (x ∷ seen)) (n + window_bits)

unfoldable pub spec_verdicts : List ℕ → List ℕ → List Bool
spec_verdicts seen [] = []
spec_verdicts seen (n ∷ ns) =
    let b = fresh seen n in b ∷ spec_verdicts (if b then n ∷ seen else seen) ns

-- After the first nonce: the bits below `last` are those of the accepted nonces.
pub record Tracks (w : ReplayWindow) (seen : List ℕ) : Type 0 where
  pub words : length w.bitmap ≡ 16
  pub started : w.initialized ≡ true
  pub newest : w.last ≡ highest seen
  pub bits : (m : ℕ) → m ≤ w.last → w.last < m + window_bits → get_bit w.bitmap m ≡ contains seen m

-- The window `w` stands for the accepted nonces `seen`.
abbrev pub Stands : ReplayWindow → List ℕ → Type 0
Stands w [] = (w.initialized ≡ false) × (w.bitmap ≡ replicate 16 0)
Stands w (x ∷ seen) = Tracks w (x ∷ seen)

contains-le : (xs : List ℕ) (n : ℕ) → contains xs n ≡ true → n ≤ highest xs
unfolding contains highest
contains-le [] n h = absurd (cc)
contains-le (x ∷ xs) n h = elim (ℕ_discrete x n) [
  | yes e ↦ omega arith
  | no ne ↦ ground (arith, contains-le xs n)
]

-- Setting the bit of an accepted nonce in a window that had the others.
set_bit-contains :
    (bitmap seen : List ℕ) (last n : ℕ)
    → length bitmap ≡ 16
    → n ≤ last
    → last < n + window_bits
    → ((m : ℕ) → m ≤ last → last < m + window_bits → m ≢ n → get_bit bitmap m ≡ contains seen m)
    → (m : ℕ) → m ≤ last
    → last < m + window_bits
    → get_bit (set_bit bitmap n) m ≡ contains (n ∷ seen) m
unfolding contains
set_bit-contains bitmap seen last n l below recent old m p q = elim (ℕ_discrete n m) [
  | yes e ↦ ground (arith, set_bit-same bitmap n m l (ap (λ x. x % window_bits) e))
  | no ne ↦ ground (arith, set_bit-other bitmap n m l (omega arith), old m p q (omega arith))
]

first-Stands :
    (w : ReplayWindow) (n : ℕ)
    → Stands w []
    → Tracks (record { bitmap = set_bit w.bitmap n; last = n; initialized = true }) (n ∷ [])
unfolding highest contains
first-Stands w n (i, b) = record {
  words = length-set_bit w.bitmap n ∙ ap length b;
  started = refl;
  newest = omega arith;
  bits =
      set_bit-contains w.bitmap [] n n (ap length b) (omega arith) (omega arith)
        (λ m p q ne. ap (λ r. get_bit r m) b ∙ get_bit-zero m);
}

-- No nonce above the highest was accepted.
pub contains_above : (xs : List ℕ) (n : ℕ) → highest xs < n → contains xs n ≡ false
contains_above xs n h = elim (Bool-cases (contains xs n)) [
  | inl e ↦ absurd (omega (arith, contains-le xs n e))
  | inr e ↦ e
]

-- The bitmap that `advance` clears before it sets the new bit.
abbrev cleared : ReplayWindow → ℕ → List ℕ
cleared w n =
    if leb window_bits (n - w.last)
    then replicate 16 0
    else clear_bits w.bitmap (w.last + 1) (n - w.last)

length-cleared : (w : ReplayWindow) (n : ℕ) → length w.bitmap ≡ 16 → length (cleared w n) ≡ 16
length-cleared w n l = ground (arith, length-clear_bits w.bitmap (w.last + 1) (n - w.last))

cleared-bits :
    (w : ReplayWindow) (seen : List ℕ) (n m : ℕ)
    → Tracks w seen
    → w.last < n
    → m ≤ n
    → n < m + window_bits
    → m ≢ n
    → get_bit (cleared w n) m ≡ contains seen m
cleared-bits w seen n m t above p q ne = elim (dec_lt w.last m) [
  | yes later ↦ ground (
    arith,
    get_bit-zero m,
    contains_above seen m (omega (arith, t.newest)),
    clear_bits-same w.bitmap (w.last + 1) (n - w.last) m t.words (omega arith) (omega arith),
  )
  | no older ↦ ground (
    arith,
    clear_bits-other w.bitmap (w.last + 1) (n - w.last) m t.words (λ x a b. omega arith),
    t.bits m (omega arith) (omega arith),
  )
]

advance-Tracks :
    (w : ReplayWindow) (seen : List ℕ) (n : ℕ)
    → Tracks w seen
    → w.last < n
    → Tracks (advance w n) (n ∷ seen)
unfolding advance highest
advance-Tracks w seen n t above = record {
  words = length-set_bit (cleared w n) n ∙ length-cleared w n t.words;
  started = t.started;
  newest = omega (arith, t.newest);
  bits =
      set_bit-contains (cleared w n) seen n n (length-cleared w n t.words) (omega arith)
        (omega arith) (λ m p q ne. cleared-bits w seen n m t above p q ne);
}

-- A late nonce that was not seen.
late-Tracks :
    (w : ReplayWindow) (seen : List ℕ) (n : ℕ)
    → Tracks w seen
    → n ≤ w.last
    → w.last < n + window_bits
    → Tracks (record w { bitmap = set_bit w.bitmap n }) (n ∷ seen)
unfolding highest
late-Tracks w seen n t below recent = record {
  words = length-set_bit w.bitmap n ∙ t.words;
  started = t.started;
  newest = omega (arith, t.newest);
  bits = set_bit-contains w.bitmap seen w.last n t.words below recent (λ m p q ne. t.bits m p q);
}

-- What a call owes the specification: its verdict, and a window that stands for the new set.
abbrev pub Agrees : List ℕ → ℕ → ReplayWindow × Bool → Bool → Type 0
Agrees seen n r b = (r.1 ≡ b) × Stands r.0 (if b then n ∷ seen else seen)

-- The four ways through a call on a window that has started, in the code and in the specification.
module _ (w : ReplayWindow) (seen : List ℕ) (n : ℕ) (t : Tracks w seen) where
  code_above : w.last < n → check_and_update w n ≡ (advance w n, true)
  unfolding check_and_update
  code_above h = ground (arith, t.started)

  code_old : ¬ (w.last < n) → ¬ (w.last < n + window_bits) → check_and_update w n ≡ (w, false)
  unfolding check_and_update
  code_old h k = ground (arith, t.started)

  code_seen :
      ¬ (w.last < n)
      → w.last < n + window_bits
      → contains seen n ≡ true
      → check_and_update w n ≡ (w, false)
  unfolding check_and_update
  code_seen h k e = ground (arith, t.started, t.bits n (omega arith) k)

  code_new :
      ¬ (w.last < n)
      → w.last < n + window_bits
      → contains seen n ≡ false
      → check_and_update w n ≡ (record w { bitmap = set_bit w.bitmap n }, true)
  unfolding check_and_update
  code_new h k e = ground (arith, t.started, t.bits n (omega arith) k)

module _ (x : ℕ) (xs : List ℕ) (n : ℕ) where
  fresh_lem :
      fresh (x ∷ xs) n ≡ (not (contains (x ∷ xs) n) && ltb (highest (x ∷ xs)) (n + window_bits))
  unfolding fresh
  fresh_lem = refl

  spec_above : highest (x ∷ xs) < n → fresh (x ∷ xs) n ≡ true
  spec_above h = ground (arith, fresh_lem, contains_above (x ∷ xs) n h)

  spec_old : ¬ (highest (x ∷ xs) < n + window_bits) → fresh (x ∷ xs) n ≡ false
  spec_old h = ground (arith, fresh_lem)

  spec_seen : contains (x ∷ xs) n ≡ true → fresh (x ∷ xs) n ≡ false
  spec_seen h = ground (arith, fresh_lem)

  spec_new :
      highest (x ∷ xs) < n + window_bits → contains (x ∷ xs) n ≡ false → fresh (x ∷ xs) n ≡ true
  spec_new h e = ground (arith, fresh_lem)

-- By the results of a call on a window that has started.
started-Agrees :
    (w : ReplayWindow) (x n : ℕ) (xs : List ℕ)
    → Tracks w (x ∷ xs)
    → Agrees (x ∷ xs) n (check_and_update w n) (fresh (x ∷ xs) n)
started-Agrees w x n xs t = elim (dec_lt w.last n) [
  | yes above ↦
      agree (code_above w seen n t above) (spec_above x xs n (omega (arith, t.newest)))
        (refl, advance-Tracks w seen n t above)
  | no below ↦ elim (dec_lt w.last (n + window_bits)) [
    | no old ↦
        agree (code_old w seen n t below old) (spec_old x xs n (omega (arith, t.newest))) (refl, t)
    | yes recent ↦ elim (Bool-cases (contains seen n)) [
      | inl e ↦ agree (code_seen w seen n t below recent e) (spec_seen x xs n e) (refl, t)
      | inr e ↦
          agree (code_new w seen n t below recent e) (spec_new x xs n (omega (arith, t.newest)) e)
            (refl, late-Tracks w seen n t (omega arith) recent)
    ]
  ]
]
  where
    seen : List ℕ
    seen = x ∷ xs

    agree :
        {r : ReplayWindow × Bool} {b : Bool}
        → check_and_update w n ≡ r
        → fresh seen n ≡ b
        → Agrees seen n r b
        → Agrees seen n (check_and_update w n) (fresh seen n)
    agree p q a = subst₂ (Agrees seen n) (sym p) (sym q) a

-- One call gives the verdict of the specification, and the window stands for the new set.
pub check_and_update-Agrees :
    (w : ReplayWindow) (seen : List ℕ) (n : ℕ)
    → Stands w seen
    → Agrees seen n (check_and_update w n) (fresh seen n)
unfolding check_and_update fresh
check_and_update-Agrees w [] n s = rw s.0 (refl, first-Stands w n s)
check_and_update-Agrees w (x ∷ xs) n t = started-Agrees w x n xs t

verdicts-Stands :
    (ns : List ℕ) (w : ReplayWindow) (seen : List ℕ)
    → Stands w seen
    → verdicts w ns ≡ spec_verdicts seen ns
unfolding verdicts spec_verdicts
verdicts-Stands [] w seen s = refl
verdicts-Stands (n ∷ ns) w seen s =
    ap₂ ◌∷◌ (check_and_update-Agrees w seen n s).0
      (verdicts-Stands ns (check_and_update w n).0 _ (check_and_update-Agrees w seen n s).1)

-- On every sequence of nonces, a new window gives the verdicts of the specification: a nonce is
-- accepted exactly when it is the first, or was not accepted before and lies less than 1024 below
-- the highest nonce accepted so far.
pub verdicts-new : (ns : List ℕ) → verdicts new ns ≡ spec_verdicts [] ns
unfolding new
verdicts-new ns = verdicts-Stands ns new [] (refl, refl)
