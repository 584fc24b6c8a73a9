-- ===== src/Extension/Clock.antt =====
-- `ZMQ.now` of ext/rbczmq/rbczmq_ext.c.
use rbczmq.Base.{
  ℕ, ◌%◌, ◌^◌, ◌<◌, ◌≤◌, ◌≡◌, ◌↔◌, inl, inr, refl, arith, ℤ, pos, negsuc, Bool-cases, ltb, Returns,
  returns,
}
use rbczmq.Czmq.Zlist.{Zlist}
use rbczmq.Extension.{Library, int_to_num, now}
use rbczmq.Net.{Zsocket, Net}
use rbczmq.Objects.{int}

-- The values of a signed integer of 32 bits.
abbrev pub FitsInt : ℤ → Type 0
FitsInt (pos k) = k < 2 ^ 31
FitsInt (negsuc k) = k < 2 ^ 31

int_to_num_lem : (k : ℕ) → FitsInt (int_to_num k) × ((int_to_num k ≡ pos k) ↔ (k < 2 ^ 31))
unfolding int_to_num
int_to_num_lem k = elim (Bool-cases (ltb (k % 2 ^ 32) (2 ^ 31))) [
  | inl e ↦
      (let small : k % 2 ^ 32 < 2 ^ 31 = ground (arith, e) in
        rw e (
          small,
          (
            (λ h. (let same : k % 2 ^ 32 ≡ k = cc h in omega (arith, same, small))),
            λ h. (let same : k % 2 ^ 32 ≡ k = omega (arith, h) in rw same refl),
          ),
        ))
  | inr e ↦
      (let large : 2 ^ 31 ≤ k % 2 ^ 32 = ground (arith, e) in
        rw e (omega (arith, large), ((λ h. absurd (cc h)), λ h. absurd (omega (arith, h, large)))))
]

module _ {n : Zsocket} {z : Zlist} (lib : Library n) where
  -- ZMQ.now returns an integer of 32 bits, which is the clock's milliseconds just when these are
  -- below 2 ^ 31.
  pub now_lem :
      (s : Net n z)
      → Returns
          (λ r t.
            (t.world ≡ s.world)
            × ((i : ℤ) × (r ≡ int i)
                × FitsInt i
                × ((i ≡ pos (lib.zclock_time s.world)) ↔ (lib.zclock_time s.world < 2 ^ 31))))
          (λ e t. ⊥)
          (now lib s)
  unfolding now
  now_lem s =
      let (fits, exact) = int_to_num_lem (lib.zclock_time s.world) in
      returns (refl, (_, refl, fits, exact))
