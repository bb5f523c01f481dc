-- ===== src/OrdMap/Less.antt =====
-- The order that a `std::map` is instantiated with.
use flux_sched.Common.{
  ℕ, ◌≡◌, ◌↔◌, ◌≢◌, Bool, true, false, not, ◌&&◌, ltb, Bool-cases, arith, inl, inr,
}

-- A strict total order, as a Boolean test with its laws.
pub record Key {ℓ} (K : Type ℓ) : Type ℓ where
  pub less : K → K → Bool
  pub less_irrefl : (a : K) → less a a ≡ false
  pub less_trans : (a b c : K) → less a b ≡ true → less b c ≡ true → less a c ≡ true
  pub eq_of_incomparable : (a b : K) → less a b ≡ false → less b a ≡ false → a ≡ b

-- `!(a < b) && !(b < a)`, the equivalence that the map goes by.
unfoldable pub same {ℓ} : {K : Type ℓ} ⦃o : Key K⦄ → K → K → Bool
same ⦃o⦄ a b = not (o.less a b) && not (o.less b a)

module _ {ℓ} {K : Type ℓ} ⦃o : Key K⦄ where
  pub less_asymm : (a b : K) → o.less a b ≡ true → o.less b a ≡ false
  less_asymm a b h = ground (arith, o.less_trans a b a h, o.less_irrefl a)

  pub same_refl : (a : K) → same a a ≡ true
  unfolding same
  same_refl a = rw (o.less_irrefl a)

  same_sound : (a b : K) → same a b ≡ true → a ≡ b
  unfolding same
  same_sound a b h = ground (arith, o.eq_of_incomparable a b)

  pub same_iff : (a b : K) → (same a b ≡ true) ↔ (a ≡ b)
  same_iff a b = (same_sound a b, λ e. rw (← e) (same_refl a))

  pub same_ne : (a b : K) → a ≢ b → same a b ≡ false
  same_ne a b n = elim (Bool-cases (same a b)) [ inl e ↦ absurd (n (same_sound a b e)) | inr e ↦ e ]

pub nat_trans : (a b c : ℕ) → ltb a b ≡ true → ltb b c ≡ true → ltb a c ≡ true
nat_trans a b c h k = ground arith

pub nat_irrefl : (a : ℕ) → ltb a a ≡ false
nat_irrefl a = ground arith

pub nat_incomparable : (a b : ℕ) → ltb a b ≡ false → ltb b a ≡ false → a ≡ b
nat_incomparable a b h k = ground arith

instance abbrev pub nat_key : Key ℕ
nat_key = record {
  less = ltb;
  less_irrefl = nat_irrefl;
  less_trans = nat_trans;
  eq_of_incomparable = nat_incomparable;
}
