-- ===== src/Batcher/Accumulator/Buffer.antt =====
-- What the buffer holds: after any pushes since the last `take`, the first envelope of each key as a
-- row, and the ack of every envelope in the order of delivery.
use crypto_lakehouse.Prelude.{
  Bool, List, Option, [], add_u64, ap, append-nil, append_assoc, arith, contains, contains-firsts,
  false, firsts, firsts-snoc, if_cases, if◌then◌else◌, int_eq, is_nil, length, length-append,
  length-firsts-le, map, map-append, map-map, max, nat_eq, none, refl, some, string_eq, sum_of,
  sum_of-append, sym, true, u64_mod, ℕ, ◌%◌, ◌&&◌, ◌++◌, ◌-◌, ◌∙◌, ◌∷◌, ◌≡◌, ◌≤◌,
}
use crypto_lakehouse.Trade.{Key, key_of, key_eq}
use crypto_lakehouse.Source.Ack.{Envelope}
use crypto_lakehouse.Batcher.Accumulator.{
  Accumulator, BatchConfig, FlushTrigger, new, push_row, drop_row, store, push, take,
}

abbrev pub envelope_key : Envelope → Key
envelope_key e = key_of e.event

-- The envelopes that a batch keeps: all, or with `dedup` the first of each key.
abbrev pub kept : Bool → List Envelope → List Envelope
kept true es = firsts envelope_key [] es
kept false es = es

kept-snoc :
    (d : Bool) (es : List Envelope) (e : Envelope)
    → kept d (es ++ e ∷ [])
      ≡ kept d es ++ (if d && contains (map envelope_key es) (envelope_key e) then [] else e ∷ [])
kept-snoc true es e = firsts-snoc envelope_key [] es e
kept-snoc false es e = refl

length-kept-le : (d : Bool) (es : List Envelope) → length (kept d es) ≤ length es
length-kept-le true es = length-firsts-le envelope_key [] es
length-kept-le false es = omega arith

abbrev pub is_none {ℓ} : {A : Type ℓ} → Option A → Bool
is_none none = true
is_none (some a) = false

-- The accumulator holds what was delivered since the last `take`.
pub record Buffers (acc : Accumulator) (es : List Envelope) : Type 0 where
  pub rows : acc.rows ≡ map (λ e. e.event) (kept acc.policy.dedup es)
  pub acks : acc.acks ≡ map (λ e. e.ack) es
  pub bytes : acc.bytes ≡ sum_of (λ e. max e.bytes 1) (kept acc.policy.dedup es) % u64_mod
  pub duplicates : acc.duplicates ≡ (length es - length (kept acc.policy.dedup es)) % u64_mod
  pub seen : acc.seen_keys ≡ (if acc.policy.dedup then map key_of acc.rows else [])
  pub started : is_none acc.first_seen ≡ is_nil es

pub Buffers-new : (policy : BatchConfig) → Buffers (new policy) []
unfolding new firsts
Buffers-new policy = ground arith

-- With `dedup` the set of seen keys tells which keys were delivered.
seen-delivered :
    (acc : Accumulator) (es : List Envelope) (k : Key)
    → Buffers acc es
    → acc.policy.dedup ≡ true
    → contains acc.seen_keys k ≡ contains (map envelope_key es) k
seen-delivered acc es k b d = rw (b.seen, d, b.rows, d, map-map) (contains-firsts envelope_key es k)

-- One more envelope is kept unless `dedup` finds its key.
abbrev repeats : Accumulator → List Envelope → Envelope → Bool
repeats acc es e = acc.policy.dedup && contains (map envelope_key es) (envelope_key e)

kept-new :
    (acc : Accumulator) (es : List Envelope) (e : Envelope)
    → repeats acc es e ≡ false
    → kept acc.policy.dedup (es ++ e ∷ []) ≡ kept acc.policy.dedup es ++ e ∷ []
kept-new acc es e h = rw (kept-snoc acc.policy.dedup es e, h)

kept-old :
    (acc : Accumulator) (es : List Envelope) (e : Envelope)
    → repeats acc es e ≡ true
    → kept acc.policy.dedup (es ++ e ∷ []) ≡ kept acc.policy.dedup es
kept-old acc es e h = rw (kept-snoc acc.policy.dedup es e, h) (append-nil _)

is_nil-snoc {ℓ} : {A : Type ℓ} (xs : List A) (x : A) → is_nil (xs ++ x ∷ []) ≡ false
is_nil-snoc [] x = refl
is_nil-snoc (y ∷ xs) x = refl

is_nil-kept : (d : Bool) (es : List Envelope) → is_nil (map (λ e. e.event) (kept d es)) ≡ is_nil es
unfolding firsts
is_nil-kept true [] = refl
is_nil-kept true (e ∷ es) = refl
is_nil-kept false [] = refl
is_nil-kept false (e ∷ es) = refl

is_nil_of_contains :
    (es : List Envelope) (k : Key) → contains (map envelope_key es) k ≡ true → is_nil es ≡ false
is_nil_of_contains [] k h = cc
is_nil_of_contains (e ∷ es) k h = refl

push_row-Buffers :
    (acc : Accumulator) (es : List Envelope) (e : Envelope) (t : ℕ) (keys : List Key)
    → Buffers acc es
    → repeats acc es e ≡ false
    → keys ≡ (if acc.policy.dedup then acc.seen_keys ++ envelope_key e ∷ [] else acc.seen_keys)
    → Buffers (push_row (record acc { seen_keys = keys }) e t) (es ++ e ∷ [])
unfolding push_row add_u64
push_row-Buffers acc es e t keys b h k = record {
  rows = rw (b.rows, kept-new acc es e h, map-append);
  acks = rw (b.acks, map-append);
  bytes = omega (
    arith,
    b.bytes,
    ap (sum_of (λ x. max x.bytes 1)) (kept-new acc es e h),
    sum_of-append (λ x. max x.bytes 1) (kept acc.policy.dedup es) (e ∷ []),
  );
  duplicates = omega (
    arith,
    b.duplicates,
    ap length (kept-new acc es e h),
    length-append es (e ∷ []),
    length-append (kept acc.policy.dedup es) (e ∷ []),
  );
  seen = ground (arith, k, b.seen, map-append key_of acc.rows (e.event ∷ []));
  started = ground (arith, b.started, is_nil-snoc es e, is_nil-kept acc.policy.dedup es, b.rows);
}

drop_row-Buffers :
    (acc : Accumulator) (es : List Envelope) (e : Envelope)
    → Buffers acc es
    → repeats acc es e ≡ true
    → Buffers (drop_row acc e) (es ++ e ∷ [])
unfolding drop_row add_u64
drop_row-Buffers acc es e b h = record {
  rows = rw (b.rows, kept-old acc es e h);
  acks = rw (b.acks, map-append);
  bytes = rw (b.bytes, kept-old acc es e h);
  duplicates = omega (
    arith,
    b.duplicates,
    ap length (kept-old acc es e h),
    length-append es (e ∷ []),
    length-kept-le acc.policy.dedup es,
  );
  seen = b.seen;
  started = ground (arith, b.started, is_nil-snoc es e, is_nil_of_contains es (envelope_key e));
}

store-Buffers :
    (acc : Accumulator) (es : List Envelope) (e : Envelope) (t : ℕ)
    → Buffers acc es
    → Buffers (store acc e t) (es ++ e ∷ [])
unfolding store
store-Buffers acc es e t b =
    if_cases (λ a. Buffers a (es ++ e ∷ [])) acc.policy.dedup _ _
      (λ on.
        if_cases (λ a. Buffers a (es ++ e ∷ [])) (contains acc.seen_keys (envelope_key e)) _ _
          (λ old.
            drop_row-Buffers acc es e b
              (ground (arith, seen-delivered acc es (envelope_key e) b on)))
          (λ fresh.
            push_row-Buffers acc es e t _ b
              (ground (arith, seen-delivered acc es (envelope_key e) b on)) (rw on refl)))
      (λ off. push_row-Buffers acc es e t acc.seen_keys b (rw off refl) (rw off refl))

policy-store : (acc : Accumulator) (e : Envelope) (t : ℕ) → (store acc e t).policy ≡ acc.policy
unfolding store
policy-store acc e t = ground arith

-- One delivery: the envelope and the two clock readings of its `push`.
abbrev pub Delivery : Type 0
Delivery = Envelope × ℕ × ℕ

abbrev pub delivered : List Delivery → List Envelope
delivered = map (λ d. d.0)

pub pushes : Accumulator → List Delivery → Accumulator
pushes acc [] = acc
pushes acc ((e, seen_at, due_at) ∷ ds) = pushes (push acc e seen_at due_at).0 ds

pub push-Buffers :
    (acc : Accumulator) (es : List Envelope) (e : Envelope) (seen_at due_at : ℕ)
    → Buffers acc es
    → Buffers (push acc e seen_at due_at).0 (es ++ e ∷ [])
unfolding push
push-Buffers acc es e seen_at due_at b = store-Buffers acc es e seen_at b

pub policy-push :
    (acc : Accumulator) (e : Envelope) (seen_at due_at : ℕ)
    → (push acc e seen_at due_at).0.policy ≡ acc.policy
unfolding push
policy-push acc e seen_at due_at = policy-store acc e seen_at

pushes-Buffers_from :
    (acc : Accumulator) (es : List Envelope) (ds : List Delivery)
    → Buffers acc es
    → Buffers (pushes acc ds) (es ++ delivered ds)
unfolding pushes
pushes-Buffers_from acc es [] b = rw append-nil b
pushes-Buffers_from acc es ((e, seen_at, due_at) ∷ ds) b =
    rw (append_assoc es (e ∷ []) (delivered ds)) at (
      pushes-Buffers_from (push acc e seen_at due_at).0 (es ++ e ∷ []) ds
        (push-Buffers acc es e seen_at due_at b))

-- After any deliveries to a new accumulator it holds the first envelope of each key as a row (with
-- `dedup` off, every envelope), the acks of all of them in order, the number of those dropped, the
-- sum of the bytes of those kept, and a set of seen keys that is exactly the keys of its rows.
pub pushes-Buffers :
    (policy : BatchConfig) (ds : List Delivery) → Buffers (pushes (new policy) ds) (delivered ds)
pushes-Buffers policy ds = pushes-Buffers_from (new policy) [] ds (Buffers-new policy)

policy-pushes : (acc : Accumulator) (ds : List Delivery) → (pushes acc ds).policy ≡ acc.policy
unfolding pushes
policy-pushes acc [] = refl
policy-pushes acc ((e, seen_at, due_at) ∷ ds) =
    policy-pushes (push acc e seen_at due_at).0 ds ∙ policy-push acc e seen_at due_at

-- `take` leaves a new accumulator behind.
pub take-new : (acc : Accumulator) (trigger : FlushTrigger) → (take acc trigger).1 ≡ new acc.policy
unfolding take new
take-new acc trigger = refl

rows-take : (acc : Accumulator) (trigger : FlushTrigger) → (take acc trigger).0.rows ≡ acc.rows
unfolding take
rows-take acc trigger = refl

policy-pushes-new :
    (policy : BatchConfig) (ds : List Delivery) → (pushes (new policy) ds).policy ≡ policy
unfolding new
policy-pushes-new policy ds = policy-pushes (new policy) ds

rows-pushes :
    (policy : BatchConfig) (ds : List Delivery)
    → (pushes (new policy) ds).rows ≡ map (λ e. e.event) (kept policy.dedup (delivered ds))
rows-pushes policy ds =
    (pushes-Buffers policy ds).rows
    ∙ ap (λ p. map (λ e. e.event) (kept p.dedup (delivered ds))) (policy-pushes-new policy ds)

-- Redelivery: when a batch was taken and its envelopes are delivered again, at whatever times, the
-- next batch has the same rows. None is taken for a duplicate of the batch before.
pub take-redelivered :
    (policy : BatchConfig) (ds again : List Delivery) (t u : FlushTrigger)
    → delivered again ≡ delivered ds
    → (take (pushes (take (pushes (new policy) ds) t).1 again) u).0.rows
      ≡ (take (pushes (new policy) ds) t).0.rows
take-redelivered policy ds again t u same =
    let fresh = take-new (pushes (new policy) ds) t ∙ ap new (policy-pushes-new policy ds) in
    rw (fresh, rows-take (pushes (new policy) again) u, rows-take (pushes (new policy) ds) t)
      (rows-pushes policy again
        ∙ ap (λ es. map (λ e. e.event) (kept policy.dedup es)) same
        ∙ sym (rows-pushes policy ds))

pub is_nil-rows :
    (acc : Accumulator) (es : List Envelope) → Buffers acc es → is_nil acc.rows ≡ is_nil es
is_nil-rows acc es b = rw b.rows (is_nil-kept acc.policy.dedup es)
