-- ===== src/Planner/Steps.antt =====
-- resource/planner: how the writes to the points change what the points tell.
use flux_sched.Common.{
  ℕ, ◌≡◌, ◌≢◌, ◌≤◌, ◌+◌, ◌⊎◌, sym, ◌∙◌, true, false, Option, none, some, if◌then◌else◌, arith, inl,
  inr, Option-cases, Bool-cases,
}
use flux_sched.OrdMap.{same, same_iff, nat_key}
use flux_sched.Planner.Walk.{within}
use flux_sched.Planner.View.{Core}
use flux_sched.Planner.Describes.{Describes, base_ref}

-- What a write to the two quantities makes of a point.
abbrev pub moved : (ℕ → ℕ) → (ℕ → ℕ) → Option Core → Option Core
moved fc fm none = none
moved fc fm (some (r, c, m)) = some (r, fc c, fm m)

module _ {start total : ℕ} {f : ℕ → Option Core} {u e : ℕ → ℕ}
    (d : Describes start total f u e) where
  pub Describes-ext :
      (g : ℕ → Option Core) (u' e' : ℕ → ℕ)
      → ((k : ℕ) → g k ≡ f k)
      → ((k : ℕ) → u' k ≡ u k)
      → ((k : ℕ) → e' k ≡ e k)
      → Describes start total g u' e'
  Describes-ext g u' e' hf hu he = record {
    refs = λ k r c m h. ground (arith, d.refs k r c m, hf k, he k, h);
    used = λ k r c m h. ground (arith, d.used k r c m, hf k, hu k, h);
    whole = λ k r c m h. ground (arith, d.whole k r c m, hf k, h);
    low = λ k r c m h. ground (arith, d.low k r c m, hf k, h);
    gone = λ k h. ground (arith, d.gone k, hf k, he k, h);
    based = λ h. d.based (sym (hf start) ∙ h);
  }

  -- One point is written or added.
  pub Describes-set :
      (g : ℕ → Option Core) (e' : ℕ → ℕ) (at r0 c0 m0 : ℕ)
      → ((k : ℕ) → g k ≡ (if same at k then some (r0, c0, m0) else f k))
      → start ≤ at
      → r0 ≡ e' at + base_ref start at
      → c0 ≡ u at
      → c0 + m0 ≡ total
      → ((k : ℕ) → at ≢ k → e' k ≡ e k)
      → Describes start total g u e'
  Describes-set g e' at r0 c0 m0 hg le hr hc hm he = record {
    refs = λ k r c m h. ground (arith, d.refs k r c m, hg k, he k, h, hr, same_iff at k);
    used = λ k r c m h. ground (arith, d.used k r c m, hg k, h, hc, same_iff at k);
    whole = λ k r c m h. ground (arith, d.whole k r c m, hg k, h, hm, same_iff at k);
    low = λ k r c m h. ground (arith, d.low k r c m, hg k, h, le, same_iff at k);
    gone = λ k h. ground (arith, d.gone k, hg k, he k, h, same_iff at k);
    based = λ h. ground (arith, d.based, hg start, h, same_iff at start);
  }

  -- A point without references is removed.
  pub Describes-erase :
      (g : ℕ → Option Core) (at c0 m0 : ℕ)
      → ((k : ℕ) → g k ≡ (if same at k then none else f k))
      → f at ≡ some (0, c0, m0)
      → Describes start total g u e
  Describes-erase g at c0 m0 hg h0 =
      let none_end = d.refs at 0 c0 m0 h0 in
      record {
        refs = λ k r c m h. ground (arith, d.refs k r c m, hg k, h);
        used = λ k r c m h. ground (arith, d.used k r c m, hg k, h);
        whole = λ k r c m h. ground (arith, d.whole k r c m, hg k, h);
        low = λ k r c m h. ground (arith, d.low k r c m, hg k, h);
        gone = λ k h. ground (arith, d.gone k, hg k, h, none_end, same_iff at k);
        based = λ h. ground (arith, d.based, hg start, h, none_end, same_iff at start);
      }

  -- The points of a window are written.
  pub Describes-window :
      (g : ℕ → Option Core) (u' : ℕ → ℕ) (a b : ℕ) (fc fm : ℕ → ℕ)
      → ((k : ℕ) → g k ≡ (if within a b k then moved fc fm (f k) else f k))
      → ((k c m : ℕ)
          → within a b k ≡ true
          → c ≡ u k
          → c + m ≡ total
          → (fc c ≡ u' k) × (fc c + fm m ≡ total))
      → ((k : ℕ) → within a b k ≡ false → u' k ≡ u k)
      → Describes start total g u' e
  Describes-window g u' a b fc fm hg hu ho = record {
    refs = λ k r c m h. elim (origin k r c m h) [
      | inl (w, c0, m0, h0, _, _) ↦ d.refs k r c0 m0 h0
      | inr (_, h0) ↦ d.refs k r c m h0
    ];
    used = λ k r c m h. elim (origin k r c m h) [
      | inl (w, c0, m0, h0, ec, _) ↦
          sym ec ∙ (hu k c0 m0 w (d.used k r c0 m0 h0) (d.whole k r c0 m0 h0)).0
      | inr (w, h0) ↦ d.used k r c m h0 ∙ sym (ho k w)
    ];
    whole = λ k r c m h. elim (origin k r c m h) [
      | inl (w, c0, m0, h0, ec, em) ↦
          ground (arith, ec, em, (hu k c0 m0 w (d.used k r c0 m0 h0) (d.whole k r c0 m0 h0)).1)
      | inr (w, h0) ↦ d.whole k r c m h0
    ];
    low = λ k r c m h. elim (origin k r c m h) [
      | inl (w, c0, m0, h0, _, _) ↦ d.low k r c0 m0 h0
      | inr (_, h0) ↦ d.low k r c m h0
    ];
    gone = λ k h. d.gone k (still_none k h);
    based = λ h. d.based (still_none start h);
  }
    where
      origin :
          (k r c m : ℕ)
          → g k ≡ some (r, c, m)
          → ((within a b k ≡ true)
              × (c0 : ℕ) × (m0 : ℕ) × (f k ≡ some (r, c0, m0))
              × (fc c0 ≡ c)
              × (fm m0 ≡ m))
            ⊎ ((within a b k ≡ false) × (f k ≡ some (r, c, m)))
      origin k r c m h = elim (Bool-cases (within a b k)) [
        | inl w ↦ elim (Option-cases (f k)) [
          | inl n ↦ absurd (ground (arith, hg k, w, n, h))
          | inr ((r0, c0, m0), e0) ↦ inl (
            w,
            c0,
            m0,
            ground (arith, hg k, w, e0, h),
            ground (arith, hg k, w, e0, h),
            ground (arith, hg k, w, e0, h),
          )
        ]
        | inr w ↦ inr (w, ground (arith, hg k, w, h))
      ]

      still_none : (k : ℕ) → g k ≡ none → f k ≡ none
      still_none k h = elim (Option-cases (f k)) [
        | inl n ↦ n
        | inr ((r0, c0, m0), e0) ↦ absurd (ground (arith, hg k, e0, h))
      ]
