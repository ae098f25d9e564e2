-- ===== src/Messaging/Transient/Correct.antt =====
-- The walk with enough depth, and what its answer says.
use marketplace_template.Prelude.{
  ℕ, zero, suc, ◌+◌, ◌<◌, ◌≡◌, ◌↔◌, refl, sym, ap, ◌∙◌, inl, inr, true, false, Option, none, some,
  List, [], ◌∷◌, arith, nat_eq, length, lookup, Bool-cases, Option-cases,
}
use marketplace_template.Messaging.Transient.{
  ErrorObject, Heap, is_transient_object, has_ref, visit, is_transient_consumer_error,
}
use marketplace_template.Messaging.Transient.Search.{
  Leads, here, driver, caused, LeadsToTransient, unseen, unseen-le, unseen-Within, unseen-cons,
  Holds, Searched, Visited, Visited-nothing, Visited-transient, Visited-driver, Visited-cause,
}

module _ (heap : Heap) where
  visit-Visited :
      (depth : ℕ) (seen : List ℕ) (err : Option ℕ)
      → unseen heap seen < depth
      → Visited heap seen err (visit heap depth seen err)
  unfolding visit
  visit-Visited zero seen err enough = absurd (omega arith)
  visit-Visited (suc depth) seen none enough =
      Visited-nothing heap seen none (λ ref object e. ground arith)
  visit-Visited (suc depth) seen (some ref) enough = elim (Option-cases (lookup ref heap)) [
    | inl missing ↦
        rw (visit, missing)
          (Visited-nothing heap seen (some ref) (λ x object e at.
            let one : ref ≡ x = ground arith in
            let nothing = sym missing ∙ ap (λ y. lookup y heap) one ∙ at in ground arith))
    | inr (object, there) ↦ elim (Bool-cases (has_ref seen ref)) [
      | inl old ↦
          rw (visit, there, old)
            (Visited-nothing heap seen (some ref)
              (λ x o e at. let one : ref ≡ x = ground arith in ground (arith, old, one)))
      | inr new ↦ elim (Bool-cases (is_transient_object heap object)) [
        | inl hit ↦ rw (visit, there, new, hit) (Visited-transient heap seen ref object there hit)
        | inr plain ↦
            let d = visit heap depth (ref ∷ seen) object.driver_error in
            let smaller = unseen-cons heap seen ref object there new in
            let vd = visit-Visited depth (ref ∷ seen) object.driver_error (omega arith) in
            let fewer = unseen-Within heap (ref ∷ seen) d.1 vd.grows in
            let vc = visit-Visited depth d.1 object.cause (omega arith) in
            elim (Bool-cases d.0) [
              | inl hit ↦
                  rw (visit, there, new, plain, hit)
                    (Visited-driver heap seen ref object there d hit vd)
              | inr missed ↦
                  rw (visit, there, new, plain, missed)
                    (Visited-cause heap seen ref object there d (visit heap depth d.1 object.cause)
                      new plain missed vd vc)
            ]
      ]
    ]
  ]

  -- Where the search ended with false, nothing that the error leads to is transient.
  none_transient :
      (more : List ℕ) (err : Option ℕ) (target : ℕ)
      → ((ref : ℕ) (object : ErrorObject)
          → has_ref more ref ≡ true
          → lookup ref heap ≡ some object
          → Searched heap more object)
      → Holds heap more err
      → Leads heap err target
      → (object : ErrorObject) → lookup target heap ≡ some object
      → is_transient_object heap object ≡ false
  none_transient more _ target closed root here object there =
      (closed target object (root target object refl there) there).plain
  none_transient more _ target closed root (driver {ref} o at way) object there =
      none_transient more o.driver_error target closed
        (closed ref o (root ref o refl at) at).next_driver way object there
  none_transient more _ target closed root (caused {ref} o at way) object there =
      none_transient more o.cause target closed (closed ref o (root ref o refl at) at).next_cause
        way object there

  -- An error counts as transient exactly if, following `driverError` and `cause` any number of
  -- times, circles or not, it leads to an object with a transient code or message.
  pub is_transient_iff :
      (err : Option ℕ) → (is_transient_consumer_error heap err ≡ true) ↔ LeadsToTransient heap err
  unfolding is_transient_consumer_error
  is_transient_iff err =
      let v = visit-Visited (length heap + 1) [] err (omega (arith, unseen-le heap [])) in
      let r = visit heap (length heap + 1) [] err in
      (
        v.found,
        λ (target, way, object, there, hit). elim (Bool-cases r.0) [
          | inl yes_hit ↦ yes_hit
          | inr missed ↦
              let plain =
                none_transient r.1 err target
                  (λ ref o seen at. v.searched missed ref o seen refl at) (v.root missed) way object
                  there in
              absurd (ground (arith, plain, hit))
        ],
      )
