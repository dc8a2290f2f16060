-- ===== src/RateLimiter/Bound.antt =====
-- What a token bucket grants.
use qasp.Prelude.{
  ℕ, ◌+◌, ◌-◌, ◌*◌, ◌≤◌, ◌<◌, ◌≡◌, refl, ap, inl, inr, true, false, List, [], ◌∷◌, Bool, arith,
  ◌==◌, if◌then◌else◌, Bool-cases,
}
use native.Mathlib.Nat.{zero-add}
use qasp.Prelude.Result.{Result, ok, err}
use qasp.RateLimiter.{TokenBucket, second, unit, full, refill, take_tokens, consume}

-- A request: the reading of the clock and the number of tokens.
pub record Request : Type 0 where
  pub at : ℕ
  pub n : ℕ

-- The tokens that one answer grants.
abbrev pub granted_by : ℕ → Result Bool → ℕ
granted_by n (ok true) = n
granted_by n (ok false) = 0
granted_by n (err e) = 0

-- The tokens that a run of requests has been granted, and the bucket after it.
unfoldable pub run : List Request → TokenBucket → ℕ × TokenBucket
run [] b = (0, b)
run (r ∷ rest) b =
    let (answer, b') = consume r.at r.n b in
    let (granted, b'') = run rest b' in (granted_by r.n answer + granted, b'')

-- One operation on a bucket keeps its rate and its bound, and what it grants and leaves comes from
-- what was there and from the time that has passed.
record Books (granted : ℕ) (b b' : TokenBucket) : Type 0 where
  capacity : b'.capacity ≡ b.capacity
  num : b'.num ≡ b.num
  den : b'.den ≡ b.den
  bounded : b'.tokens ≤ b.capacity * (b.den * second)
  paid :
      granted * (b.den * second) + b'.tokens + b.last_refill * b.num
      ≤ b.tokens + b'.last_refill * b.num

elapsed_units :
    (earlier now num : ℕ) → earlier < now → (now - earlier) * num + earlier * num ≡ now * num
elapsed_units earlier now num h =
    let e : now - earlier + earlier ≡ now = omega arith in omega (arith, ap (λ t. t * num) e)

refill-Books : (now : ℕ) (b : TokenBucket) → b.tokens ≤ full b → Books 0 b (refill now b)
unfolding refill
refill-Books now b h = ground (arith, elapsed_units b.last_refill now b.num)

take_tokens-Books :
    (n : ℕ) (b : TokenBucket)
    → b.tokens ≤ full b
    → Books (if (take_tokens n b).0 then n else 0) b (take_tokens n b).1
unfolding take_tokens
take_tokens-Books n b h = ground arith

Books-trans : (g k : ℕ) (a b c : TokenBucket) → Books g a b → Books k b c → Books (g + k) a c
Books-trans g k a b c p q = record {
  capacity = omega (arith, p.capacity, q.capacity);
  num = omega (arith, p.num, q.num);
  den = omega (arith, p.den, q.den);
  bounded = omega (
    arith,
    q.bounded,
    ap (λ t. t * (b.den * second)) p.capacity,
    ap (λ t. a.capacity * (t * second)) p.den,
  );
  paid = omega (
    arith,
    p.paid,
    q.paid,
    ap (λ t. k * (t * second)) p.den,
    ap (λ t. b.last_refill * t) p.num,
    ap (λ t. c.last_refill * t) p.num,
  );
}

-- With the rate written as that of the first bucket, the bound of one is the bound of the other.
Books-full : (g : ℕ) (a b : TokenBucket) → Books g a b → b.tokens ≤ full b
Books-full g a b p = omega (
  arith,
  p.bounded,
  ap (λ t. t * (b.den * second)) p.capacity,
  ap (λ t. a.capacity * (t * second)) p.den,
)

granted_case :
    (n : ℕ) (b : TokenBucket) (r : Bool × TokenBucket)
    → Books (0 + (if r.0 then n else 0)) b r.1
    → Books (granted_by n (ok r.0)) b r.1
granted_case n b (true, b') h = rw zero-add at h
granted_case n b (false, b') h = rw zero-add at h

consume-Books :
    (now n : ℕ) (b : TokenBucket)
    → b.tokens ≤ full b
    → Books (granted_by n (consume now n b).0) b (consume now n b).1
unfolding consume
consume-Books now n b h = elim (Bool-cases (n == 0)) [
  | inl nothing ↦
      rw nothing
        (record { capacity = refl; num = refl; den = refl; bounded = h; paid = omega arith })
  | inr some_tokens ↦ rw some_tokens (
      let r = refill-Books now b h in
      let t = take_tokens-Books n (refill now b) (Books-full 0 b (refill now b) r) in
      granted_case n b (take_tokens n (refill now b)) (Books-trans 0 _ b (refill now b) _ r t))
]

run-Books :
    (requests : List Request) (b : TokenBucket)
    → b.tokens ≤ full b
    → Books (run requests b).0 b (run requests b).1
unfolding run
run-Books [] b h = record {
  capacity = refl;
  num = refl;
  den = refl;
  bounded = h;
  paid = omega arith;
}
run-Books (r ∷ rest) b h =
    let c = consume r.at r.n b in
    let s = consume-Books r.at r.n b h in
    Books-trans (granted_by r.n c.0) (run rest c.1).0 b c.1 (run rest c.1).1 s
      (run-Books rest c.1 (Books-full (granted_by r.n c.0) b c.1 s))

-- Over any run of requests, at whatever times the clock reads: the tokens granted are at most those
-- that were there and those that the time since the last refill has brought, and the bucket never
-- holds more than its capacity.
pub run_bound :
    (requests : List Request) (b : TokenBucket)
    → b.tokens ≤ full b
    → let (granted, b') = run requests b in
      (granted * unit b + b.last_refill * b.num ≤ b.tokens + b'.last_refill * b.num)
      × (b'.tokens ≤ full b)
run_bound requests b h = let k = run-Books requests b h in (omega (arith, k.paid), k.bounded)
