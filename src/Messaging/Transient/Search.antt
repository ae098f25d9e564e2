-- ===== src/Messaging/Transient/Search.antt =====
-- The walk over an error's objects finds a transient one exactly if one can be reached.
use marketplace_template.Prelude.{
  ℕ, suc, ◌≤◌, ◌<◌, ◌≡◌, sym, ap, subst, ◌∙◌, inl, inr, Bool, true, false, Option, some, List, [],
  ◌∷◌, arith, nat_beq_iff, ◌==◌, nat_eq, if◌then◌else◌, length, lookup, Bool-cases,
}
use marketplace_template.Messaging.Transient.{ErrorObject, Heap, is_transient_object, has_ref}

-- The references that an error leads to.
pub data Leads (heap : Heap) : Option ℕ → ℕ → Type 0 where
  here : {ref : ℕ} → Leads heap (some ref) ref
  driver :
      {ref target : ℕ} (object : ErrorObject)
      → lookup ref heap ≡ some object
      → Leads heap object.driver_error target
      → Leads heap (some ref) target
  caused :
      {ref target : ℕ} (object : ErrorObject)
      → lookup ref heap ≡ some object
      → Leads heap object.cause target
      → Leads heap (some ref) target

-- Some object that the error leads to is transient by itself.
abbrev pub LeadsToTransient : Heap → Option ℕ → Type 0
LeadsToTransient heap err =
    (ref : ℕ) × Leads heap err ref
    × (object : ErrorObject) × (lookup ref heap ≡ some object)
    × (is_transient_object heap object ≡ true)

-- The keys of the heap that are not in a list.
abbrev pub unseen : Heap → List ℕ → ℕ
unseen [] seen = 0
unseen ((ref, _) ∷ heap) seen =
    let rest = unseen heap seen in if has_ref seen ref then rest else suc rest

pub unseen-le : (heap : Heap) (seen : List ℕ) → unseen heap seen ≤ length heap
unseen-le [] seen = omega arith
unseen-le ((ref, o) ∷ heap) seen = ground (arith, unseen-le heap seen)

-- Everything of `seen` is in `more`.
abbrev pub Within : List ℕ → List ℕ → Type 0
Within seen more = (ref : ℕ) → has_ref seen ref ≡ true → has_ref more ref ≡ true

pub unseen-Within :
    (heap : Heap) (seen more : List ℕ) → Within seen more → unseen heap more ≤ unseen heap seen
unseen-Within [] seen more h = omega arith
unseen-Within ((ref, o) ∷ heap) seen more h =
    let rest = unseen-Within heap seen more h in
    elim (Bool-cases (has_ref seen ref)) [
      | inl there ↦ let there' = h ref there in ground (arith, rest)
      | inr missing ↦ ground (arith, rest)
    ]

Within-cons : (ref : ℕ) (seen : List ℕ) → Within seen (ref ∷ seen)
Within-cons ref seen r h = ground (arith, h)

has_ref_self : (ref : ℕ) (seen : List ℕ) → has_ref (ref ∷ seen) ref ≡ true
has_ref_self ref seen = ground arith

pub unseen-cons :
    (heap : Heap) (seen : List ℕ) (ref : ℕ) (object : ErrorObject)
    → lookup ref heap ≡ some object
    → has_ref seen ref ≡ false
    → unseen heap (ref ∷ seen) < unseen heap seen
unfolding lookup
unseen-cons [] seen ref object h new = absurd (ground arith)
unseen-cons ((r, o) ∷ heap) seen ref object h new = elim (Bool-cases (r == ref)) [
  | inl same ↦
      let one = (nat_beq_iff r ref).0 same in
      let rest = unseen-Within heap seen (ref ∷ seen) (Within-cons ref seen) in ground (arith, rest)
  | inr apart ↦
      let rest = unseen-cons heap seen ref object (rw apart at h) new in ground (arith, rest)
]

-- Where `err` points to an object, `seen` has it.
abbrev pub Holds : Heap → List ℕ → Option ℕ → Type 0
Holds heap seen err =
    (ref : ℕ) (object : ErrorObject)
    → err ≡ some ref
    → lookup ref heap ≡ some object
    → has_ref seen ref ≡ true

Holds-Within :
    (heap : Heap) (seen more : List ℕ) (err : Option ℕ)
    → Within seen more
    → Holds heap seen err
    → Holds heap more err
Holds-Within heap seen more err w h ref object e there = w ref (h ref object e there)

-- A reference that was searched: its object is not transient, and its successors are in `more`.
pub record Searched (heap : Heap) (more : List ℕ) (object : ErrorObject) : Type 0 where
  pub plain : is_transient_object heap object ≡ false
  pub next_driver : Holds heap more object.driver_error
  pub next_cause : Holds heap more object.cause

Searched-Within :
    (heap : Heap) (seen more : List ℕ) (object : ErrorObject)
    → Within seen more
    → Searched heap seen object
    → Searched heap more object
Searched-Within heap seen more object w s = record {
  plain = s.plain;
  next_driver = Holds-Within heap seen more object.driver_error w s.next_driver;
  next_cause = Holds-Within heap seen more object.cause w s.next_cause;
}

abbrev pub NewSearched : Heap → List ℕ → List ℕ → Type 0
NewSearched heap seen more =
    (ref : ℕ) (object : ErrorObject)
    → has_ref more ref ≡ true
    → has_ref seen ref ≡ false
    → lookup ref heap ≡ some object
    → Searched heap more object

-- What a call of `visit` returns: with true, a way to a transient object; with false, a longer
-- `seen` whose new references are all searched.
pub record Visited (heap : Heap) (seen : List ℕ) (err : Option ℕ) (r : Bool × List ℕ) : Type 0 where
  pub grows : Within seen r.1
  pub found : r.0 ≡ true → LeadsToTransient heap err
  pub root : r.0 ≡ false → Holds heap r.1 err
  pub searched : r.0 ≡ false → NewSearched heap seen r.1

pub Visited-nothing :
    (heap : Heap) (seen : List ℕ) (err : Option ℕ)
    → Holds heap seen err
    → Visited heap seen err (false, seen)
Visited-nothing heap seen err h = record {
  grows = λ ref e. e;
  found = λ e. ground arith;
  root = λ e. h;
  searched = λ e ref object there missing o. ground arith;
}

module _ (heap : Heap) (seen : List ℕ) (ref : ℕ) (object : ErrorObject)
    (there : lookup ref heap ≡ some object) where
  pub Visited-transient :
      is_transient_object heap object ≡ true → Visited heap seen (some ref) (true, ref ∷ seen)
  Visited-transient hit = record {
    grows = Within-cons ref seen;
    found = λ e. (ref, here, object, there, hit);
    root = λ e. ground arith;
    searched = λ e. ground arith;
  }

  pub Visited-driver :
      (d : Bool × List ℕ)
      → d.0 ≡ true
      → Visited heap (ref ∷ seen) object.driver_error d
      → Visited heap seen (some ref) (true, d.1)
  Visited-driver d hit v = record {
    grows = λ r e. v.grows r (Within-cons ref seen r e);
    found = λ e.
        let (target, way, o, at, hit) = v.found hit in
        (target, driver object there way, o, at, hit);
    root = λ e. ground arith;
    searched = λ e. ground arith;
  }

  pub Visited-cause :
      (d r : Bool × List ℕ)
      → has_ref seen ref ≡ false
      → is_transient_object heap object ≡ false
      → d.0 ≡ false
      → Visited heap (ref ∷ seen) object.driver_error d
      → Visited heap d.1 object.cause r
      → Visited heap seen (some ref) r
  Visited-cause m r new plain missed d c = record {
    grows = λ x e. c.grows x (d.grows x (Within-cons ref seen x e));
    found = λ e.
        let (target, way, o, at, hit) = c.found e in (target, caused object there way, o, at, hit);
    root = λ e x o same at.
        let one : ref ≡ x = ground arith in
        subst (λ y. has_ref r.1 y ≡ true) one (c.grows ref (d.grows ref (has_ref_self ref seen)));
    searched = λ e x o in_r out_seen at. elim (Bool-cases (has_ref m.1 x)) [
      | inr later ↦ c.searched e x o in_r later at
      | inl early ↦ elim (Bool-cases (has_ref (ref ∷ seen) x)) [
        | inr not_root ↦
            Searched-Within heap m.1 r.1 o c.grows (d.searched missed x o early not_root at)
        | inl is_root ↦
            let same : (ref == x) ≡ true = ground arith in
            let one = (nat_beq_iff ref x).0 same in
            let own : object ≡ o =
              let both = sym there ∙ ap (λ y. lookup y heap) one ∙ at in ground arith in
            subst (Searched heap r.1) own (record {
              plain = plain;
              next_driver = Holds-Within heap m.1 r.1 object.driver_error c.grows (d.root missed);
              next_cause = c.root e;
            })
      ]
    ];
  }
