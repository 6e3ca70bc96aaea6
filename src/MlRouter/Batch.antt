-- ===== src/MlRouter/Batch.antt =====
-- packages/ml-router/src/ml-router.ts: `predictBatch`. Each request comes with what its prediction
-- reads of its surroundings. `Promise.all` rejects with the error of one of the promises; here it is
-- that of the first in the list.
use sandstorm_monorepo.Common.{
  ℕ, zero, suc, ◌+◌, ◌-◌, ◌≤◌, ◌<◌, ◌≡◌, ◌≢◌, refl, ◌∙◌, sym, ap, inl, inr, true, false, Option,
  none, some, List, [], ◌∷◌, ◌++◌, length, take, drop, ltb, arith, take-append-drop, Bool-cases,
  if◌then◌else◌,
}
use sandstorm_monorepo.Common.Integer.{ℤ, pos, negsuc, ◌+ℤ◌, below, slice}
use sandstorm_monorepo.Common.Number.{JsNumber}
use sandstorm_monorepo.Common.Result.{Result, ok, throw, ◌>>=◌}
use sandstorm_monorepo.Core.Sandbox.{SandboxSpec, SandboxConstraints}
use sandstorm_monorepo.MlRouter.Types.{PredictionResult}
use sandstorm_monorepo.MlRouter.Router.{MlRouter, Surroundings, predict}

-- `options.batchSize || 10`
abbrev pub batch_size_of : Option ℤ → ℤ
batch_size_of none = pos 10
batch_size_of (some (pos zero)) = pos 10
batch_size_of (some (pos (suc k))) = pos (suc k)
batch_size_of (some (negsuc k)) = negsuc k

drop-add : {A : Type 0} (i k : ℕ) (xs : List A) → drop (i + k) xs ≡ drop k (drop i xs)
drop-add zero k xs = let e : zero + k ≡ k = omega arith in rw e refl
drop-add (suc i) k (x ∷ xs) =
    let e : suc i + k ≡ suc (i + k) = omega arith in rw e (drop-add i k xs)
drop-add (suc i) zero [] = let e : suc i + zero ≡ suc i = omega arith in rw e refl
drop-add (suc i) (suc k) [] = let e : suc i + suc k ≡ suc (i + suc k) = omega arith in rw e refl

drop-all : {A : Type 0} (i : ℕ) (xs : List A) → length xs ≤ i → drop i xs ≡ []
drop-all zero [] h = refl
drop-all zero (x ∷ xs) h = absurd (omega (arith, h))
drop-all (suc i) [] h = refl
drop-all (suc i) (x ∷ xs) h = drop-all i xs (omega (arith, h))

module _ {B : Type 0} where
  -- The results of a batch before those of the rest of the loop, if it ends.
  abbrev pub join : Result (List B) → Option (Result (List B)) → Option (Result (List B))
  join (throw e) rest = some (throw e)
  join (ok batch) none = none
  join (ok batch) (some (throw e)) = some (throw e)
  join (ok batch) (some (ok results)) = some (ok (batch ++ results))

  join-some : (a b : Result (List B)) → join a (some b) ≡ some (a >>= λ u. b >>= λ v. ok (u ++ v))
  join-some (throw e) b = refl
  join-some (ok u) (throw e) = refl
  join-some (ok u) (ok v) = refl

  join-not_ok :
      (batch : Result (List B)) (rest : Option (Result (List B)))
      → ((results : List B) → rest ≢ some (ok results))
      → (results : List B) → join batch rest ≢ some (ok results)
  join-not_ok (throw e) rest h results same = cc
  join-not_ok (ok batch) none h results same = cc
  join-not_ok (ok batch) (some (throw e)) h results same = cc
  join-not_ok (ok batch) (some (ok others)) h results same = absurd (h others refl)

module _ {A B : Type 0} where
  -- All calls, then their results.
  abbrev pub all_results : (A → Result B) → List A → Result (List B)
  all_results f [] = ok []
  all_results f (x ∷ xs) = do y ← f x; ys ← all_results f xs; ok (y ∷ ys)

  -- The loop from the index i on. It has no result where the fuel runs out.
  unfoldable pub run_batches : ℕ → ℤ → (A → Result B) → List A → ℤ → Option (Result (List B))
  run_batches zero size f xs i = none
  run_batches (suc fuel) size f xs i =
      let rest = run_batches fuel size f xs (i +ℤ size) in
      if below i (length xs)
      then join (all_results f (slice i (i +ℤ size) xs)) rest
      else some (ok [])

  all_results-append :
      (f : A → Result B) (xs ys : List A)
      → all_results f (xs ++ ys) ≡ (all_results f xs >>= λ a. all_results f ys >>= λ b. ok (a ++ b))
  all_results-append f [] ys = go (all_results f ys)
    where
      go : (r : Result (List B)) → r ≡ (r >>= λ b. ok b)
      go (throw e) = refl
      go (ok b) = refl
  all_results-append f (x ∷ xs) ys =
      go (f x) (all_results f xs) (all_results f (xs ++ ys)) (all_results f ys)
        (all_results-append f xs ys)
    where
      go :
          (fx : Result B) (a c b : Result (List B))
          → c ≡ (a >>= λ u. b >>= λ v. ok (u ++ v))
          → (fx >>= λ y. c >>= λ ys. ok (y ∷ ys))
            ≡ ((fx >>= λ y. a >>= λ ys. ok (y ∷ ys)) >>= λ u. b >>= λ v. ok (u ++ v))
      go (throw e) a c b h = refl
      go (ok y) (throw e) c b h = rw h refl
      go (ok y) (ok u) c (throw e) h = rw h refl
      go (ok y) (ok u) c (ok v) h = rw h refl

  -- More fuel than there are items from the index on is enough, since each batch takes one at least.
  run_batches-all_results :
      (fuel k i : ℕ) (f : A → Result B) (xs : List A)
      → length xs - i < fuel
      → run_batches fuel (pos (suc k)) f xs (pos i) ≡ some (all_results f (drop i xs))
  unfolding run_batches
  run_batches-all_results zero k i f xs h = absurd (omega (arith, h))
  run_batches-all_results (suc fuel) k i f xs h = elim (Bool-cases (ltb i (length xs))) [
    | inl less ↦
        let ys = drop i xs in
        let size : i + suc k - i ≡ suc k = omega arith in
        let next = run_batches-all_results fuel k (i + suc k) f xs (ground (arith, h, less)) in
        let split = all_results-append f (take (suc k) ys) (drop (suc k) ys) in
        rw (less, next, size, drop-add i (suc k) xs)
          (join-some (all_results f (take (suc k) ys)) (all_results f (drop (suc k) ys))
            ∙ ap (λ r. some r) (sym split ∙ ap (all_results f) (take-append-drop (suc k) ys)))
    | inr over ↦ rw (over, drop-all i xs (ground (arith, over))) refl
  ]

  -- With a negative step the index never reaches the end.
  run_batches-negative :
      (fuel k i : ℕ) (f : A → Result B) (xs : List A) (results : List B)
      → run_batches fuel (negsuc k) f xs (negsuc i) ≢ some (ok results)
  unfolding run_batches
  run_batches-negative zero k i f xs results = λ same. cc
  run_batches-negative (suc fuel) k i f xs results =
      join-not_ok (all_results f (slice (negsuc i) (negsuc i +ℤ negsuc k) xs)) _
        (run_batches-negative fuel k (suc (i + k)) f xs) results

  run_batches-no_results :
      (fuel k : ℕ) (f : A → Result B) (x : A) (xs : List A) (results : List B)
      → run_batches fuel (negsuc k) f (x ∷ xs) (pos zero) ≢ some (ok results)
  unfolding run_batches
  run_batches-no_results zero k f x xs results = λ same. cc
  run_batches-no_results (suc fuel) k f x xs results =
      let started : ltb 0 (suc (length xs)) ≡ true = ground arith in
      let none_less : ltb k 0 ≡ false = ground arith in
      let all_of_it : k - 0 ≡ k = omega arith in
      rw (started, none_less, all_of_it)
        (join-not_ok _ _ (run_batches-negative fuel k k f (x ∷ xs)) results)

abbrev pub Request : Type 0 → Type 0
Request A = Surroundings A × SandboxSpec A × SandboxConstraints A

module _ {A : Type 0} ⦃n : JsNumber A⦄ where
  abbrev pub answer : MlRouter A → Request A → Result (PredictionResult A)
  answer router (around, spec, constraints) = predict router around spec constraints

  unfoldable pub predict_batch :
      ℕ → MlRouter A → List (Request A) → Option (Result (List (PredictionResult A)))
  unfolding run_batches
  predict_batch fuel router requests =
      run_batches fuel (batch_size_of router.batch_size) (answer router) requests (pos 0)

  -- For a batch size that is unset or a natural number, `predictBatch` ends, and it is `predict` on
  -- every request: the results in the order of the requests, or an error if one of them fails. More
  -- rounds of the loop than there are requests are enough.
  pub predict_batch-all_results :
      (router : MlRouter A) (requests : List (Request A)) (fuel : ℕ)
      → ((k : ℕ) → router.batch_size ≢ some (negsuc k))
      → length requests < fuel
      → predict_batch fuel router requests ≡ some (all_results (answer router) requests)
  unfolding predict_batch
  predict_batch-all_results router requests fuel whole enough = go router.batch_size whole
    where
      started : length requests - 0 < fuel
      started = omega (arith, enough)

      go :
          (size : Option ℤ)
          → ((k : ℕ) → size ≢ some (negsuc k))
          → run_batches fuel (batch_size_of size) (answer router) requests (pos 0)
            ≡ some (all_results (answer router) requests)
      go none w = run_batches-all_results fuel 9 0 (answer router) requests started
      go (some (pos zero)) w = run_batches-all_results fuel 9 0 (answer router) requests started
      go (some (pos (suc k))) w = run_batches-all_results fuel k 0 (answer router) requests started
      go (some (negsuc k)) w = absurd (w k refl)

  -- For a negative batch size and at least one request, `predictBatch` returns no results in any number
  -- of rounds of the loop: it throws or goes on for ever.
  pub predict_batch-negative :
      (router : MlRouter A) (request : Request A) (requests : List (Request A)) (k fuel : ℕ)
      (results : List (PredictionResult A))
      → router.batch_size ≡ some (negsuc k)
      → predict_batch fuel router (request ∷ requests) ≢ some (ok results)
  unfolding predict_batch
  predict_batch-negative router request requests k fuel results negative =
      go router.batch_size negative
    where
      go :
          (size : Option ℤ)
          → size ≡ some (negsuc k)
          → run_batches fuel (batch_size_of size) (answer router) (request ∷ requests) (pos 0)
            ≢ some (ok results)
      go none e = absurd cc
      go (some (pos zero)) e = absurd cc
      go (some (pos (suc j))) e = absurd cc
      go (some (negsuc j)) e =
          run_batches-no_results fuel j (answer router) request requests results
