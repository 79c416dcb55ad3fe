-- ===== src/Core/Pending/Backoff.antt =====
-- core/pending_manager.go: the window that a request is given.
use native.Mathlib.Nat.{mul-le-mul_left, one-le-pow, pow-le-pow_right}
use klef.Prelude.{
  nat_eq, nat_beq_iff, false, ℕ, ℤ, pos, ◌+◌, ◌*◌, ◌/◌, ◌^◌, ◌≤◌, ◌<◌, ◌≤ℤ◌, ◌<ℤ◌, ◌+ℤ◌, ◌≡◌, refl,
  Option, none, some, arith, wrap64, wrap64_lem, add64, +ℤ_parts, eq_of_parts, ltb_ℤ, leb_ℤ, negsuc,
  sym, ap, ◌∙◌, subst, inl, inr, Bool-cases,
}
use klef.Prelude.Map.{lookup, lookup-insert}
use klef.Config.{Config}
use klef.Types.Hash.{Hash}
use klef.Core.Pending.{
  PendingManager, PendingMeta, window_end, add, is_pending, next_retry, capped, backoff_of,
  jitter_of, times,
}

next_retry-le : (o : Option PendingMeta) → next_retry o ≤ 15
unfolding next_retry
next_retry-le none = omega arith
next_retry-le (some meta) = ground arith

-- Timeouts whose sums and doublings stay within 64 bits.
pub record IsTimeout (cfg : Config) (base longest : ℕ) : Type 0 where
  pub is_base : cfg.request.base_timeout ≡ pos base
  pub is_longest : cfg.request.max_backoff ≡ pos longest
  pub positive : (0 < base) × (base ≤ longest)
  pub doubles : base * 2 ^ 15 < 2 ^ 63
  pub adds : longest + longest / 5 < 2 ^ 63

-- What Int63n promises: a draw below its positive argument, and not below 0.
abbrev pub IsDraw : (ℤ → ℤ) → Type 0
IsDraw int63n = (n : ℕ) → 0 < n → (pos 0 ≤ℤ int63n (pos n)) × (int63n (pos n) <ℤ pos n)

capped-bounds :
    (base longest b : ℕ)
    → base ≤ longest
    → base ≤ b
    → (n : ℕ) × (capped (pos longest) (pos b) ≡ pos n) × (base ≤ n) × (n ≤ longest)
unfolding capped
capped-bounds base longest b l m = elim (Bool-cases (ltb_ℤ (pos longest) (pos b))) [
  | inl over ↦ (longest, rw over refl, l, omega arith)
  | inr under ↦ (b, rw under refl, m, ground (arith, under))
]

-- The jitter is at most a fifth of the backoff.
jitter_of-bounds :
    (int63n : ℤ → ℤ) (n : ℕ)
    → IsDraw int63n
    → (j : ℕ) × (jitter_of int63n (pos n) ≡ pos j) × (j ≤ n / 5)
unfolding jitter_of
jitter_of-bounds int63n n draws = elim (Bool-cases (leb_ℤ (pos 5) (pos n))) [
  | inr short ↦ (0, rw short refl, omega arith)
  | inl long ↦
      let d = draws (n / 5) (ground (arith, long)) in
      let (j, e, small) = drawn_pos (int63n (pos (n / 5))) (n / 5) d.0 d.1 in (j, rw long e, small)
]
  where
    drawn_pos : (z : ℤ) (m : ℕ) → pos 0 ≤ℤ z → z <ℤ pos m → (j : ℕ) × (z ≡ pos j) × (j ≤ m)
    drawn_pos (pos j) m a b = (j, refl, omega (arith, b))
    drawn_pos (negsuc j) m a b = absurd (omega (arith, a))

add64_pos : (n j : ℕ) → n + j < 2 ^ 63 → add64 (pos n) (pos j) ≡ pos (n + j)
unfolding add64
add64_pos n j small =
    let sum : pos n +ℤ pos j ≡ pos (n + j) =
      ground (arith, +ℤ_parts (pos n) (pos j), eq_of_parts (pos n +ℤ pos j) (pos (n + j))) in
    ap wrap64 sum ∙ wrap64_lem (pos (n + j)) (omega (arith, small), omega arith)

shift-le : (z : ℤ) (a b : ℕ) → a ≤ b → z +ℤ pos a ≤ℤ z +ℤ pos b
shift-le z a b l = omega (arith, l, +ℤ_parts z (pos a), +ℤ_parts z (pos b))

module _ (cfg : Config) (base longest : ℕ) (t : IsTimeout cfg base longest) where
  -- No doubling leaves the 64 bits, and the backoff lies between the base and the maximum.
  backoff_of-bounds :
      (k : ℕ) → k ≤ 15 → (n : ℕ) × (backoff_of cfg k ≡ pos n) × (base ≤ n) × (n ≤ longest)
  unfolding backoff_of
  backoff_of-bounds k few =
      let most : base * 2 ^ k ≤ base * 2 ^ 15 =
        mul-le-mul_left base (pow-le-pow_right (omega arith) few) in
      let least : base * 1 ≤ base * 2 ^ k = mul-le-mul_left base (one-le-pow k 2 (omega arith)) in
      let whole = wrap64_lem (pos (base * 2 ^ k)) (omega (arith, most, t.doubles), omega arith) in
      let value : backoff_of cfg k ≡ capped (pos longest) (pos (base * 2 ^ k)) =
        ap (λ x. capped x (wrap64 (times cfg.request.base_timeout (2 ^ k)))) t.is_longest
        ∙ ap (λ x. capped (pos longest) (wrap64 (times x (2 ^ k)))) t.is_base
        ∙ ap (capped (pos longest)) whole in
      let (n, e, low, high) =
        capped-bounds base longest (base * 2 ^ k) t.positive.1 (omega (arith, least)) in
      (n, value ∙ e, low, high)

  window_end-bounds :
      (int63n : ℤ → ℤ) (hash : Hash) (now : ℤ) (pm : PendingManager)
      → IsDraw int63n
      → pm.cfg ≡ cfg
      → (now +ℤ pos base ≤ℤ window_end int63n hash now pm)
        × (window_end int63n hash now pm ≤ℤ now +ℤ pos (longest + longest / 5))
  window_end-bounds int63n hash now pm draws same =
      let retry = next_retry (lookup hash pm.pending_requests) in
      let (n, e, low, high) =
        backoff_of-bounds retry (next_retry-le (lookup hash pm.pending_requests)) in
      let backoff : backoff_of pm.cfg retry ≡ pos n = ap (λ c. backoff_of c retry) same ∙ e in
      let (j, drawn, small) = jitter_of-bounds int63n n draws in
      let whole : add64 (pos n) (pos j) ≡ pos (n + j) =
        add64_pos n j (omega (arith, high, small, t.adds)) in
      let end : window_end int63n hash now pm ≡ now +ℤ pos (n + j) =
        ap (λ x. now +ℤ add64 x (jitter_of int63n x)) backoff
        ∙ ap (λ x. now +ℤ add64 (pos n) x) drawn
        ∙ ap (λ x. now +ℤ x) whole in
      subst (λ x. (now +ℤ pos base ≤ℤ x) × (x ≤ℤ now +ℤ pos (longest + longest / 5))) (sym end)
        (
          shift-le now base (n + j) (omega (arith, low)),
          shift-le now (n + j) (longest + longest / 5) (omega (arith, high, small)),
        )

  -- If the configured base timeout is positive and at most the maximal backoff, fifteen doublings of the
  -- one and a fifth more than the other stay within 64 bits, and Int63n draws as documented, then an Add
  -- of a hash that is not pending stores a request of that time whose window ends after the base timeout
  -- at the earliest, and after the maximal backoff and a fifth of it at the latest, however often the
  -- hash was asked for before; and the retries that it counts stay at most 15.
  pub add-window :
      (int63n : ℤ → ℤ) (hash : Hash) (now : ℤ) (pm : PendingManager)
      → IsDraw int63n
      → pm.cfg ≡ cfg
      → is_pending hash now pm ≡ false
      → (meta : PendingMeta) × (lookup hash (add int63n hash now pm).0.pending_requests ≡ some meta)
        × (meta.request_time ≡ now)
        × (now +ℤ pos base ≤ℤ meta.expiry_time)
        × (meta.expiry_time ≤ℤ now +ℤ pos (longest + longest / 5))
        × (meta.retry_count ≤ 15)
  unfolding add
  add-window int63n hash now pm draws same free =
      let meta : PendingMeta = record {
        request_time = now;
        expiry_time = window_end int63n hash now pm;
        retry_count = next_retry (lookup hash pm.pending_requests);
      } in
      let bounds = window_end-bounds int63n hash now pm draws same in
      (
        meta,
        ground
            (arith, free, nat_beq_iff hash hash, lookup-insert hash hash meta pm.pending_requests),
        refl,
        bounds.0,
        bounds.1,
        next_retry-le (lookup hash pm.pending_requests),
      )
