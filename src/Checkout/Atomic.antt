-- ===== src/Checkout/Atomic.antt =====
-- A checkout that throws has changed no table, however often it was retried.
use marketplace_template.Prelude.{
  ℕ, suc, String, ◌≡◌, refl, sym, ap, subst, ◌∙◌, inl, inr, Option, List, none, some, arith,
  Option-cases, Result, ok, err, Action, continue, ◌>>=◌, pure,
}
use marketplace_template.Db.{Db, rollback}
use marketplace_template.Common.Retry.{Paced, default_attempts, with_retry}
use marketplace_template.Common.Retry.Settles.{Fails, here, again, with_retry-Settles}
use marketplace_template.Checkout.Order.{Indexed, items_in_lock_order}
use marketplace_template.Checkout.Tables.{CheckoutError, plain, database, replay_lost, code_of, Tx}
use marketplace_template.Checkout.{
  CheckoutInput, CheckoutResult, Committed, Turn, World, given_key, settle, select, transaction,
  checkout_body, insert_checkout, read_key, read_prices, assert_same_intent, find_committed,
  replay_or_throw, find_existing, replay_or_insert, recover, insert_with_retry, replayed,
  validate_input, unpaced, checkout,
}

-- Equal but for the identities that were drawn from the sequences.
abbrev pub SameTables : Db → Db → Type 0
SameTables a b = rollback a b ≡ b

SameTables-refl : (a : Db) → SameTables a a
unfolding rollback
SameTables-refl a = refl

SameTables-trans : (a b c : Db) → SameTables a b → SameTables b c → SameTables a c
unfolding rollback
SameTables-trans a b c h k = ap (λ (x : Db). rollback x c) h ∙ k

module _ (env : ℕ → Turn) (alone : (n : ℕ) (db : Db) → (env n).others db ≡ db) where
  settle-err :
      {A : Type 0} (db : Db) (time : ℕ) (p : Result CheckoutError A × Db) (e : CheckoutError)
      (w : World)
      → settle db time p ≡ (err e, w)
      → SameTables db w.db
  unfolding settle rollback
  settle-err db time (ok a, after) e w h = ground arith
  settle-err db time (err x, after) e w h = ground arith

  transaction-fault :
      {A : Type 0} (body : Turn → Tx A) (w : World) (code : String)
      → (env w.time).fault ≡ some code
      → transaction env body w
        ≡ (err (database code), record { db = (env w.time).others w.db; time = suc w.time })
  unfolding transaction
  transaction-fault body w code e = rw (e, transaction)

  transaction-none :
      {A : Type 0} (body : Turn → Tx A) (w : World)
      → (env w.time).fault ≡ none
      → transaction env body w
        ≡ settle
            ((env w.time).others w.db)
            (suc w.time)
            (body (env w.time) ((env w.time).others w.db))
  unfolding transaction
  transaction-none body w e = simp (e, transaction)

  world_of : {A : Type 0} (x y : A) (v w : World) → ◌≡◌ {A = A × World} (x, v) (y, w) → v ≡ w
  world_of x y v w h = ap (λ p. p.1) h

  transaction-err :
      {A : Type 0} (body : Turn → Tx A) (w w' : World) (e : CheckoutError)
      → transaction env body w ≡ (err e, w')
      → SameTables w.db w'.db
  transaction-err body w w' e h = elim (Option-cases (env w.time).fault) [
    | inl q ↦
        subst (λ d. SameTables d w'.db) (alone w.time w.db)
          (settle-err _ (suc w.time) (body (env w.time) ((env w.time).others w.db)) e w'
            (sym (transaction-none body w q) ∙ h))
    | inr (code, q) ↦
        subst (λ d. SameTables w.db d)
          (sym (alone w.time w.db)
            ∙ ap (λ (v : World). v.db)
                (world_of _ _ _ w' (sym (transaction-fault body w code q) ∙ h)))
          (SameTables-refl w.db)
  ]

  Fails-SameTables :
      (input : CheckoutInput) (locked : List Indexed) {k : ℕ} {s t : World}
      → Fails code_of (plain "unreachable") (insert_checkout env input locked) k s t
      → SameTables s.db t.db
  unfolding insert_checkout
  Fails-SameTables input locked here = SameTables-refl _
  Fails-SameTables input locked (again {s = s} {t = m} {u = t} e fails retryable rest) =
      SameTables-trans s.db m.db t.db (transaction-err (checkout_body input locked) s m e fails)
        (Fails-SameTables input locked rest)

  with_retry-err :
      (input : CheckoutInput) (locked : List Indexed) (w : World) (e : CheckoutError)
      (p : Paced World)
      → with_retry code_of
          (plain "unreachable")
          (insert_checkout env input locked)
          default_attempts
          w
        ≡ (err e, p)
      → SameTables w.db p.inner.db
  with_retry-err input locked w e p h =
      let z =
        with_retry-Settles code_of (plain "unreachable") (insert_checkout env input locked)
          default_attempts w (omega arith) in
      let last : insert_checkout env input locked z.final ≡ (err e, p.inner) =
        ap (λ (q : Result CheckoutError CheckoutResult × Paced World). (q.0, q.1.inner))
          (sym z.result ∙ h) in
      SameTables-trans w.db z.final.db p.inner.db (Fails-SameTables input locked z.failed) (
        unfold insert_checkout in
        transaction-err (checkout_body input locked) z.final p.inner e last)

  continue-same :
      {A B : Type 0} (f : A → Action CheckoutError World B) (p : Result CheckoutError A × World)
      (d : Db)
      → p.1.db ≡ d
      → ((a : A) (w : World) → (f a w).1.db ≡ w.db)
      → (continue f p).1.db ≡ d
  continue-same f (ok a, w) d h keep = keep a w ∙ h
  continue-same f (err e, w) d h keep = h

  select-same : {A : Type 0} (read : Db → A) (w : World) → (select env read w).1.db ≡ w.db
  unfolding select
  select-same read w = ground (arith, alone w.time w.db)

  find_committed-same :
      (user key : String) (w : World) → (find_committed env user key w).1.db ≡ w.db
  unfolding find_committed
  find_committed-same user key w =
      continue-same _ (select env (read_key user key) w) w.db (select-same (read_key user key) w)
        (elim [
          | none ↦ λ v. refl
          | some k ↦ λ v.
              continue-same _ (select env (λ db. read_prices k.order_id db.order_items) v) v.db
                (select-same (λ db. read_prices k.order_id db.order_items) v) (λ prices u. refl)
        ])

  replayed-same :
      (existing : Committed) (incoming : Option String) (w : World)
      → (replayed existing incoming w).1.db ≡ w.db
  replayed-same existing incoming w =
      continue-same (λ _. pure existing.result)
        (assert_same_intent existing.request_hash incoming, w) w.db refl (λ a v. refl)

  replay_or_throw-same :
      (input : CheckoutInput) (found : Option Committed) (w : World)
      → (replay_or_throw env input found w).1.db ≡ w.db
  replay_or_throw-same input none w = refl
  replay_or_throw-same input (some existing) w = replayed-same existing input.request_hash w

  recover_lost :
      (input : CheckoutInput) (key : String) (v : World)
      → given_key input.idempotency_key ≡ some key
      → recover env input (err replay_lost, v)
        ≡ continue (replay_or_throw env input) (find_committed env input.user_id key v)
  unfolding recover
  recover_lost input key v g = rw (g, recover)

  continue-SameTables :
      {A B : Type 0} (f : A → Action CheckoutError World B) (p : Result CheckoutError A × World)
      (d : Db) (e : CheckoutError) (w' : World)
      → SameTables d p.1.db
      → ((a : A) (v : World) → f a v ≡ (err e, w') → SameTables v.db w'.db)
      → continue f p ≡ (err e, w')
      → SameTables d w'.db
  continue-SameTables f (ok a, v) d e w' same rest h =
      SameTables-trans d v.db w'.db same (rest a v h)
  continue-SameTables f (err x, v) d e w' same rest h =
      subst (λ (u : World). SameTables d u.db) (world_of _ _ v w' h) same

  recover-err :
      (input : CheckoutInput) (p : Result CheckoutError CheckoutResult × World) (e : CheckoutError)
      (w : World)
      → recover env input p ≡ (err e, w)
      → (x : CheckoutError) × (p.0 ≡ err x) × (w.db ≡ p.1.db)
  unfolding recover
  recover-err input (ok r, v) e w h = ground arith
  recover-err input (err replay_lost, v) e w h =
      elim (Option-cases (given_key input.idempotency_key)) [
        | inl g ↦ (replay_lost, refl, ground arith)
        | inr (key, g) ↦
            let read =
              continue-same (replay_or_throw env input) (find_committed env input.user_id key v)
                v.db (find_committed-same input.user_id key v) (replay_or_throw-same input) in
            (
              replay_lost,
              refl,
              ap (λ (q : Result CheckoutError CheckoutResult × World). q.1.db)
                    (sym h ∙ recover_lost input key v g)
                  ∙ read,
            )
      ]
  recover-err input (err x, v) e w h = (x, refl, ground arith)

  insert_with_retry-err :
      (input : CheckoutInput) (w w' : World) (e : CheckoutError)
      → insert_with_retry env input w ≡ (err e, w')
      → SameTables w.db w'.db
  unfolding insert_with_retry
  insert_with_retry-err input w w' e h =
      let q =
        with_retry code_of (plain "unreachable")
          (insert_checkout env input (items_in_lock_order input.items)) default_attempts w in
      let (x, failed, same) = recover-err input (unpaced q) e w' h in
      subst (λ d. SameTables w.db d) (sym same)
        (with_retry-err input (items_in_lock_order input.items) w x q.1
          (ap (λ (r : Result CheckoutError CheckoutResult). (r, q.1)) failed))

  replay_or_insert-err :
      (input : CheckoutInput) (found : Option Committed) (w w' : World) (e : CheckoutError)
      → replay_or_insert env input found w ≡ (err e, w')
      → SameTables w.db w'.db
  unfolding replay_or_insert
  replay_or_insert-err input none w w' e h = insert_with_retry-err input w w' e h
  replay_or_insert-err input (some existing) w w' e h =
      subst (λ (u : World). SameTables w.db u.db) (world_of _ _ _ w' h)
        (subst (λ d. SameTables w.db d) (sym (replayed-same existing input.request_hash w))
          (SameTables-refl w.db))

  find_existing-same : (input : CheckoutInput) (w : World) → (find_existing env input w).1.db ≡ w.db
  unfolding find_existing
  find_existing-same input w = elim (Option-cases (given_key input.idempotency_key)) [
    | inl g ↦ rw (g, find_existing)
    | inr (key, g) ↦ rw (g, find_existing) (find_committed-same input.user_id key w)
  ]

  -- A checkout that ends in an error, with any faults and retries on the way but no other client
  -- at work, leaves every table as it was.
  pub checkout-err :
      (input : CheckoutInput) (w w' : World) (e : CheckoutError)
      → checkout env input w ≡ (err e, w')
      → SameTables w.db w'.db
  unfolding checkout
  checkout-err input w w' e h =
      continue-SameTables (λ _. find_existing env input >>= replay_or_insert env input)
        (validate_input input.items, w) w.db e w' (SameTables-refl w.db)
        (λ a v k.
          continue-SameTables (replay_or_insert env input) (find_existing env input v) v.db e w'
            (subst (λ d. SameTables v.db d) (sym (find_existing-same input v))
              (SameTables-refl v.db))
            (λ found u. replay_or_insert-err input found u w' e) k)
        h
