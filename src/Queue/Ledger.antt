-- ===== src/Queue/Ledger.antt =====
-- The pending side of a queue, seen through its lookups: `p`, `b` and `v` are the pending, the
-- blocked and the provisional queue, `jobs` the table of jobs, and `n` the next sequence number.
pub mod Add
use flux_sched.Common.{
  ℕ, ◌≡◌, refl, ◌<◌, ◌≤◌, ◌⊎◌, inl, inr, true, false, Option, none, some, if◌then◌else◌, arith,
  Bool-cases, ◌+◌, ap, ◌∙◌,
}
use flux_sched.OrdMap.{same, same_iff, nat_key}
use flux_sched.OrdMap.Find.{or_else}
use flux_sched.Queue.Job.{Job, JobState, PendingKey, get_key, is_pending, pending_key}

abbrev pub Jobs : Type 0
Jobs = ℕ → Option Job

abbrev pub Entries : Type 0
Entries = PendingKey → Option ℕ

-- The entry `(k, id)` belongs to a pending job with that id and that key.
abbrev pub Listed : Jobs → PendingKey → ℕ → Type 0
Listed jobs k id = (j : Job) × (jobs id ≡ some j) × (is_pending j.state ≡ true) × (get_key j ≡ k)

pub record IsLedger (p b v : Entries) (jobs : Jobs) (n : ℕ) : Type 0 where
  pub ids : (id : ℕ) (j : Job) → jobs id ≡ some j → j.id ≡ id
  -- Each entry of the three queues belongs to a pending job.
  pub listed_p : (k : PendingKey) (id : ℕ) → p k ≡ some id → Listed jobs k id
  pub listed_b : (k : PendingKey) (id : ℕ) → b k ≡ some id → Listed jobs k id
  pub listed_v : (k : PendingKey) (id : ℕ) → v k ≡ some id → Listed jobs k id
  -- Each pending job has an entry under its key.
  pub stored :
      (id : ℕ) (j : Job)
      → jobs id ≡ some j
      → is_pending j.state ≡ true
      → (p (get_key j) ≡ some id) ⊎ (b (get_key j) ≡ some id) ⊎ (v (get_key j) ≡ some id)
  -- No key stands in two of the queues.
  pub apart_pb : (k : PendingKey) (id : ℕ) → p k ≡ some id → b k ≡ none
  pub apart_pv : (k : PendingKey) (id : ℕ) → p k ≡ some id → v k ≡ none
  pub apart_bv : (k : PendingKey) (id : ℕ) → b k ≡ some id → v k ≡ none
  -- The sequence numbers of pending jobs are old, and no two jobs share one.
  pub fresh :
      (id : ℕ) (j : Job) → jobs id ≡ some j → is_pending j.state ≡ true → j.t_stamps.pending_ts < n
  pub unique :
      (id : ℕ) (j : Job) (id' : ℕ) (j' : Job)
      → jobs id ≡ some j
      → is_pending j.state ≡ true
      → jobs id' ≡ some j'
      → is_pending j'.state ≡ true
      → j.t_stamps.pending_ts ≡ j'.t_stamps.pending_ts
      → id ≡ id'

abbrev pub put {ℓ} : {A : Type ℓ} → (ℕ → Option A) → ℕ → Option A → ℕ → Option A
put f id o i = if same id i then o else f i

abbrev pub without : Entries → PendingKey → Entries
without f k j = if same k j then none else f j

abbrev pub with_entry : Entries → PendingKey → ℕ → Entries
with_entry f k id j = if same k j then some id else f j

-- What may stand for a job that has left the pending queues.
abbrev pub IsQuiet : ℕ → Option Job → Type 0
IsQuiet id o = (j : Job) → o ≡ some j → (j.id ≡ id) × (is_pending j.state ≡ false)

module _ {p b v : Entries} {jobs : Jobs} {n : ℕ} (inv : IsLedger p b v jobs n) {id : ℕ} {j : Job}
    (found : jobs id ≡ some j) (pend : is_pending j.state ≡ true) where
  Listed-drop :
      (o : Option Job) (k : PendingKey) (i : ℕ)
      → same (get_key j) k ≡ false
      → Listed jobs k i
      → Listed (put jobs id o) k i
  Listed-drop o k i ne (j', e, s, g) =
      (j', ground (arith, same_iff id i, same_iff (get_key j) k), s, g)

  Listed-without :
      (f : Entries)
      → ((k : PendingKey) (i : ℕ) → f k ≡ some i → Listed jobs k i)
      → (o : Option Job) (k : PendingKey) (i : ℕ) → without f (get_key j) k ≡ some i
      → Listed (put jobs id o) k i
  Listed-without f h o k i e = elim (Bool-cases (same (get_key j) k)) [
    | inl hit ↦ ground (arith, hit, e)
    | inr miss ↦ Listed-drop o k i miss (h k i (ground (arith, miss, e)))
  ]

  other_key :
      (i : ℕ) (j' : Job)
      → jobs i ≡ some j'
      → is_pending j'.state ≡ true
      → same id i ≡ false
      → same (get_key j) (get_key j') ≡ false
  other_key i j' e s ne = elim (Bool-cases (same (get_key j) (get_key j'))) [
    | inl hit ↦
        let ts =
          ap (λ (k : PendingKey). k.pending_ts) ((same_iff (get_key j) (get_key j')).0 hit) in
        let eq = inv.unique id j i j' found pend e s ts in ground (arith, same_iff id i)
    | inr miss ↦ miss
  ]

  -- A job leaves the pending queues with its entry.
  pub drop_lem :
      (o : Option Job)
      → IsQuiet id o
      → IsLedger
          (without p (get_key j))
          (without b (get_key j))
          (without v (get_key j))
          (put jobs id o)
          n
  drop_lem o quiet = record {
    ids = λ i j' e. ground (arith, inv.ids i j', quiet j', same_iff id i);
    listed_p = Listed-without p inv.listed_p o;
    listed_b = Listed-without b inv.listed_b o;
    listed_v = Listed-without v inv.listed_v o;
    stored = λ i j' e s. ground (arith, quiet j', inv.stored i j', other_key i j', same_iff id i);
    apart_pb = λ k i e. ground (arith, inv.apart_pb k i);
    apart_pv = λ k i e. ground (arith, inv.apart_pv k i);
    apart_bv = λ k i e. ground (arith, inv.apart_bv k i);
    fresh = λ i j' e s. ground (arith, inv.fresh i j', quiet j', same_iff id i);
    unique = λ i j' i' j'' e s e' s' h.
        ground (arith, inv.unique i j' i' j'', quiet j', quiet j'', same_iff id i, same_iff id i');
  }

  Listed-touch :
      (j' : Job)
      → j'.state ≡ j.state
      → get_key j' ≡ get_key j
      → (k : PendingKey) (i : ℕ) → Listed jobs k i
      → Listed (put jobs id (some j')) k i
  Listed-touch j' s g k i (j1, e1, s1, g1) = elim (Bool-cases (same id i)) [
    | inl hit ↦ (j', rw hit, rw s pend, g ∙ ground (arith, same_iff id i) ∙ g1)
    | inr miss ↦ (j1, rw miss e1, s1, g1)
  ]

  -- A job is written without a change of its id, its state and its key.
  pub touch_lem :
      (j' : Job)
      → j'.id ≡ j.id
      → j'.state ≡ j.state
      → get_key j' ≡ get_key j
      → IsLedger p b v (put jobs id (some j')) n
  touch_lem j' e s g = record {
    ids = λ i j1 e1. ground (arith, inv.ids i j1, inv.ids id j, same_iff id i);
    listed_p = λ k i e1. Listed-touch j' s g k i (inv.listed_p k i e1);
    listed_b = λ k i e1. Listed-touch j' s g k i (inv.listed_b k i e1);
    listed_v = λ k i e1. Listed-touch j' s g k i (inv.listed_v k i e1);
    stored = λ i j1 e1 s1. ground (arith, inv.stored i j1, inv.stored id j, same_iff id i);
    apart_pb = inv.apart_pb;
    apart_pv = inv.apart_pv;
    apart_bv = inv.apart_bv;
    fresh = λ i j1 e1 s1. ground (arith, inv.fresh i j1, inv.fresh id j, same_iff id i);
    unique = λ i j1 i' j2 e1 s1 e2 s2 h. ground (
      arith,
      inv.unique i j1 i' j2,
      inv.unique id j i' j2,
      inv.unique i j1 id j,
      same_iff id i,
      same_iff id i',
    );
  }
