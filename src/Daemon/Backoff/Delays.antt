-- ===== src/Daemon/Backoff/Delays.antt =====
-- How the delays of src/daemon.rs grow.
use native.Mathlib.Nat.{pow-suc, one-le-pow, le-mul_of_pos_right, mul-le-mul_right}
use mesh_vpn.Base.{
  ℕ, zero, suc, ◌+◌, ◌*◌, ◌/◌, ◌^◌, ◌≤◌, ◌≡◌, ◌∙◌, ap, min, List, [], ◌∷◌, arith, some, get_elem?,
  dec_le,
}
use mesh_vpn.Daemon.Backoff.{Backoff, reset, advance, delays, initial_ms, max_ms}

-- The delay without its jitter, `k` advances after a current delay of `c`.
abbrev grown : ℕ → ℕ → ℕ → ℕ
grown c limit k = min (c * 2 ^ k) limit

capped : (x limit p : ℕ) → 1 ≤ p → min (min x limit * p) limit ≡ min (x * p) limit
capped x limit p h = elim (dec_le x limit) [
  | yes l ↦ let small : min x limit ≡ x = omega (arith, l) in ap (λ t. min (t * p) limit) small
  | no g ↦
      let big : min x limit ≡ limit = omega (arith, g) in
      ap (λ t. min (t * p) limit) big
      ∙ omega (
        arith,
        le-mul_of_pos_right {m = p} limit h,
        mul-le-mul_right {m = limit} {n = x} p (omega (arith, g)),
      )
]

grown-suc : (c limit k : ℕ) → grown (min (c * 2) limit) limit k ≡ grown c limit (suc k)
grown-suc c limit k =
    let doubled : c * 2 * 2 ^ k ≡ c * 2 ^ suc k = omega (arith, ap (λ t. c * t) (pow-suc 2 k)) in
    capped (c * 2) limit (2 ^ k) (one-le-pow k 2 (omega arith)) ∙ ap (λ t. min t limit) doubled

delays-grown :
    (jitters : List ℕ) (b : Backoff) (k jitter : ℕ)
    → b.current ≤ b.max_delay
    → get_elem? jitters k ≡ some jitter
    → get_elem? (delays jitters b) k ≡ some (grown b.current b.max_delay k + jitter)
unfolding delays advance
delays-grown [] b k jitter h e = absurd (cc)
delays-grown (j ∷ js) b zero jitter h e = ground arith
delays-grown (j ∷ js) b (suc k) jitter h e =
    delays-grown js (advance j b).1 k jitter (omega arith) e
    ∙ ap (λ t. some (t + jitter)) (grown-suc b.current b.max_delay k)

-- After a reset the delay of the k-th attempt, counted from 0, is 2^k seconds, at most 30, with the
-- jitter that was drawn for it; with jitters of at most a quarter of the delay no delay is above 37.5
-- seconds.
pub delays-reset :
    (jitters : List ℕ) (b : Backoff) (k jitter : ℕ)
    → b.max_delay ≡ max_ms
    → get_elem? jitters k ≡ some jitter
    → jitter ≤ min (initial_ms * 2 ^ k) max_ms / 4
    → (get_elem? (delays jitters (reset b)) k ≡ some (min (initial_ms * 2 ^ k) max_ms + jitter))
      × (min (initial_ms * 2 ^ k) max_ms + jitter ≤ 37_500)
unfolding reset
delays-reset jitters b k jitter m e h = (
  delays-grown jitters (reset b) k jitter (omega (arith, m)) e
      ∙ ap (λ t. some (min (initial_ms * 2 ^ k) t + jitter)) m,
  omega (arith, h),
)
