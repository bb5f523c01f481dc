-- ===== src/Queue/Ledger/Add.antt =====
-- Entries that join the pending side of a queue, and queues that are merged.
use mathlib.Core.Path.{fun_ext}
use flux_sched.Common.{
  ℕ, ◌≡◌, ◌≢◌, refl, sym, ◌<◌, ◌≤◌, ◌⊎◌, inl, inr, true, false, Option, none, some, arith,
  Bool-cases, ap, ◌∙◌, Option-cases,
}
use flux_sched.OrdMap.{same, same_iff, nat_key}
use flux_sched.OrdMap.Find.{or_else}
use flux_sched.Queue.Job.{Job, PendingKey, get_key, is_pending, pending_key}
use flux_sched.Queue.Ledger.{Jobs, Entries, Listed, IsLedger, put, without, with_entry, IsQuiet}

-- Functions that agree everywhere make the same ledger.
pub cong_lem :
    {p b v p' b' v' : Entries} {jobs jobs' : Jobs} {n : ℕ}
    → ((k : PendingKey) → p' k ≡ p k)
    → ((k : PendingKey) → b' k ≡ b k)
    → ((k : PendingKey) → v' k ≡ v k)
    → ((i : ℕ) → jobs' i ≡ jobs i)
    → IsLedger p b v jobs n
    → IsLedger p' b' v' jobs' n
cong_lem {n} ep eb ev ej inv = rw (fun_ext ep, fun_ext eb, fun_ext ev, fun_ext ej) inv

apart_flip :
    (f g : Entries)
    → ((k : PendingKey) (i : ℕ) → f k ≡ some i → g k ≡ none)
    → (k : PendingKey) (i : ℕ) → g k ≡ some i
    → f k ≡ none
apart_flip f g h k i e = elim (Option-cases (f k)) [
  | inl free ↦ free
  | inr (w, taken) ↦ ground (arith, h k w taken, e)
]

-- The three queues play the same part.
pub swap_pv :
    {p b v : Entries} {jobs : Jobs} {n : ℕ} → IsLedger p b v jobs n → IsLedger v b p jobs n
swap_pv {p} {b} {v} inv = record {
  ids = inv.ids;
  listed_p = inv.listed_v;
  listed_b = inv.listed_b;
  listed_v = inv.listed_p;
  stored = λ i j e s. ground (arith, inv.stored i j e s);
  apart_pb = apart_flip b v inv.apart_bv;
  apart_pv = apart_flip p v inv.apart_pv;
  apart_bv = apart_flip p b inv.apart_pb;
  fresh = inv.fresh;
  unique = inv.unique;
}

pub swap_bv :
    {p b v : Entries} {jobs : Jobs} {n : ℕ} → IsLedger p b v jobs n → IsLedger p v b jobs n
swap_bv {p} {b} {v} inv = record {
  ids = inv.ids;
  listed_p = inv.listed_p;
  listed_b = inv.listed_v;
  listed_v = inv.listed_b;
  stored = λ i j e s. ground (arith, inv.stored i j e s);
  apart_pb = inv.apart_pv;
  apart_pv = inv.apart_pb;
  apart_bv = apart_flip b v inv.apart_bv;
  fresh = inv.fresh;
  unique = inv.unique;
}

-- `m_pending.merge (m_blocked)`
pub merge_pb :
    {p b v : Entries} {jobs : Jobs} {n : ℕ}
    → IsLedger p b v jobs n
    → IsLedger (λ k. or_else (p k) (b k)) (λ k. none) v jobs n
merge_pb {p} {b} {v} {jobs} inv = record {
  ids = inv.ids;
  listed_p = λ k i e. merged k i (Option-cases (p k)) e;
  listed_b = λ k i e. absurd (cc);
  listed_v = inv.listed_v;
  stored = λ i j e s. ground (
    arith,
    inv.stored i j e s,
    inv.apart_pb (get_key j) i,
    apart_flip p b inv.apart_pb (get_key j) i,
  );
  apart_pb = λ k i e. refl;
  apart_pv = λ k i e. ground (arith, inv.apart_pv k i, inv.apart_bv k i, e, Option-cases (p k));
  apart_bv = λ k i e. absurd (cc);
  fresh = inv.fresh;
  unique = inv.unique;
}
  where
    merged :
        (k : PendingKey) (i : ℕ)
        → (p k ≡ none) ⊎ ((w : ℕ) × (p k ≡ some w))
        → or_else (p k) (b k) ≡ some i
        → Listed jobs k i
    merged k i (inl free) e = inv.listed_b k i (ground (arith, free, e))
    merged k i (inr (w, taken)) e = inv.listed_p k i (ground (arith, taken, e))

module _ {p b v : Entries} {jobs : Jobs} {n m : ℕ} (inv : IsLedger p b v jobs n) {id : ℕ}
    (absent : jobs id ≡ none) (j : Job) (named : j.id ≡ id) (pend : is_pending j.state ≡ true)
    (old : j.t_stamps.pending_ts < m) (grown : n ≤ m)
    (alone : (i : ℕ) (j' : Job)
      → jobs i ≡ some j'
      → is_pending j'.state ≡ true
      → j'.t_stamps.pending_ts ≢ j.t_stamps.pending_ts) where
  Listed-put : (k : PendingKey) (i : ℕ) → Listed jobs k i → Listed (put jobs id (some j)) k i
  Listed-put k i (j1, e1, s1, g1) = (j1, ground (arith, same_iff id i, absent, e1), s1, g1)

  -- No queue has an entry under the key of the new job.
  unlisted : (k : PendingKey) (i : ℕ) → Listed jobs k i → same (get_key j) k ≡ false
  unlisted k i (j1, e1, s1, g1) = elim (Bool-cases (same (get_key j) k)) [
    | inl hit ↦ absurd (
        alone i j1 e1 s1
          (ap (λ (x : PendingKey). x.pending_ts) (g1 ∙ sym ((same_iff (get_key j) k).0 hit))))
    | inr miss ↦ miss
  ]

  pub free_at :
      (f : Entries)
      → ((k : PendingKey) (i : ℕ) → f k ≡ some i → Listed jobs k i)
      → (k : PendingKey) → same (get_key j) k ≡ true
      → f k ≡ none
  free_at f h k hit = elim (Option-cases (f k)) [
    | inl free ↦ free
    | inr (w, taken) ↦ ground (arith, unlisted k w (h k w taken), hit)
  ]

  Listed-with_entry :
      (k : PendingKey) (i : ℕ)
      → with_entry v (get_key j) id k ≡ some i
      → Listed (put jobs id (some j)) k i
  Listed-with_entry k i e = elim (Bool-cases (same (get_key j) k)) [
    | inl hit ↦ (j, ground (arith, hit, e, same_iff id i), pend, (same_iff (get_key j) k).0 hit)
    | inr miss ↦ Listed-put k i (inv.listed_v k i (ground (arith, miss, e)))
  ]

  -- A job that was absent enters the provisional queue.
  pub add_v : IsLedger p b (with_entry v (get_key j) id) (put jobs id (some j)) m
  add_v = record {
    ids = λ i j1 e1. ground (arith, inv.ids i j1, same_iff id i);
    listed_p = λ k i e. Listed-put k i (inv.listed_p k i e);
    listed_b = λ k i e. Listed-put k i (inv.listed_b k i e);
    listed_v = Listed-with_entry;
    stored = λ i j1 e1 s1. ground (
      arith,
      inv.stored i j1,
      same_iff id i,
      same_iff (get_key j) (get_key j1),
      unlisted (get_key j1) i,
    );
    apart_pb = inv.apart_pb;
    apart_pv = λ k i e. ground (arith, inv.apart_pv k i, free_at p inv.listed_p k);
    apart_bv = λ k i e. ground (arith, inv.apart_bv k i, free_at b inv.listed_b k);
    fresh = λ i j1 e1 s1. ground (arith, inv.fresh i j1, same_iff id i);
    unique = λ i j1 i' j2 e1 s1 e2 s2 h.
        ground
          (arith, inv.unique i j1 i' j2, alone i j1, alone i' j2, same_iff id i, same_iff id i');
  }

-- A write to a job that is not pending, before and after, leaves the pending side alone.
pub quiet_lem :
    {p b v : Entries} {jobs : Jobs} {n : ℕ}
    → IsLedger p b v jobs n
    → {id : ℕ} (o : Option Job) → ((j : Job) → jobs id ≡ some j → is_pending j.state ≡ false)
    → IsQuiet id o
    → IsLedger p b v (put jobs id o) n
quiet_lem {p} {b} {v} {jobs} inv {id} o before quiet = record {
  ids = λ i j e. ground (arith, inv.ids i j, quiet j, same_iff id i);
  listed_p = λ k i e. kept k i (inv.listed_p k i e);
  listed_b = λ k i e. kept k i (inv.listed_b k i e);
  listed_v = λ k i e. kept k i (inv.listed_v k i e);
  stored = λ i j e s. ground (arith, inv.stored i j, quiet j, same_iff id i);
  apart_pb = inv.apart_pb;
  apart_pv = inv.apart_pv;
  apart_bv = inv.apart_bv;
  fresh = λ i j e s. ground (arith, inv.fresh i j, quiet j, same_iff id i);
  unique = λ i j i' j' e s e' s' h.
      ground (arith, inv.unique i j i' j', quiet j, quiet j', same_iff id i, same_iff id i');
}
  where
    kept : (k : PendingKey) (i : ℕ) → Listed jobs k i → Listed (put jobs id o) k i
    kept k i (j, e, s, g) = (j, ground (arith, before j, same_iff id i, e, s), s, g)

-- `m_blocked.insert (m_pending.extract (it))`
pub move_pb :
    {p b v : Entries} {jobs : Jobs} {n : ℕ}
    → IsLedger p b v jobs n
    → (k : PendingKey) (id : ℕ) → p k ≡ some id
    → IsLedger (without p k) (with_entry b k id) v jobs n
move_pb {p} {b} {v} {jobs} inv k id e = record {
  ids = inv.ids;
  listed_p = λ k' i e'. inv.listed_p k' i (ground (arith, same_iff k k', e'));
  listed_b = moved;
  listed_v = inv.listed_v;
  stored = λ i j e' s.
      ground (arith, inv.stored i j e' s, same_iff k (get_key j), e, inv.apart_pb (get_key j) id);
  apart_pb = λ k' i e'. ground (arith, inv.apart_pb k' i, same_iff k k', e');
  apart_pv = λ k' i e'. ground (arith, inv.apart_pv k' i, same_iff k k', e');
  apart_bv = λ k' i e'. ground (arith, inv.apart_bv k' i, inv.apart_pv k' id, same_iff k k', e', e);
  fresh = inv.fresh;
  unique = inv.unique;
}
  where
    moved : (k' : PendingKey) (i : ℕ) → with_entry b k id k' ≡ some i → Listed jobs k' i
    moved k' i e' = elim (Bool-cases (same k k')) [
      | inl hit ↦ inv.listed_p k' i (ground (arith, same_iff k k', hit, e', e))
      | inr miss ↦ inv.listed_b k' i (ground (arith, miss, e'))
    ]
