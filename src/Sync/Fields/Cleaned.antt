-- ===== src/Sync/Fields/Cleaned.antt =====
-- What a payload that `clean_fields` accepts holds.
use dukan_pro.Prelude.{
  String, ◌≡◌, refl, sym, ◌⊎◌, inl, inr, Bool, true, false, not, ◌≢◌, ◌&&◌, Option, none, some, [],
  ◌∷◌, arith, Bool-cases, Option-cases, is_some,
}
use dukan_pro.Prelude.Text.{str_eq, eq_iff, eq_refl}
use dukan_pro.Prelude.Dict.{Dict, lookup, lookup-cons, lookup-cons_none}
use dukan_pro.Errors.{or_raise, Result, ok, raise_if, validation, Code, crash, >>=-eq-ok, >>-eq-ok}
use dukan_pro.Sync.Values.{Value, Fields}
use dukan_pro.Sync.Fields.{check, known_keys, collect_one, collect, spec_of, clean_fields}
use dukan_pro.Sync.Fields.Specs.{Field}
use dukan_pro.Sync.Fields.Accepted.{Fits, check_iff}

known_keys_sound :
    (spec : Dict Field) (given : Fields) (k : String) (x : Value)
    → known_keys spec given ≡ ok tt
    → lookup k given ≡ some x
    → (f : Field) × (lookup k spec ≡ some f)
unfolding known_keys lookup
known_keys_sound spec [] k x h e = cc
known_keys_sound spec ((j, y) ∷ given) k x h e =
    let (first, rest) = >>-eq-ok _ (known_keys spec given) h in
    elim (Bool-cases (str_eq j k)) [
      | inl same ↦ rw (sym ((eq_iff j k).0 same)) (known (lookup j spec) first)
      | inr other ↦ known_keys_sound spec given k x rest (rw other at e)
    ]
  where
    known :
        (o : Option Field)
        → raise_if (not (is_some o)) (validation Code.sync_field_not_allowed) ≡ ok tt
        → (f : Field) × (o ≡ some f)
    known none p = cc
    known (some f) p = (f, refl)

-- One round of the second loop: the field was not pushed and need not be, or it was pushed with a
-- value that fits, which comes first in the result.
Round : Bool → String → Field → Option Value → Result Fields → Fields → Type 0
Round inserting name g given rest out =
    ((given ≡ none) × ((g.required && inserting) ≡ false) × (rest ≡ ok out))
    ⊎ ((x : Value) × (later : Fields) × (given ≡ some x)
        × Fits g x
        × (rest ≡ ok later)
        × (out ≡ (name, x) ∷ later))

collect_one-inv :
    (inserting : Bool) (name : String) (g : Field) (given : Option Value) (rest : Result Fields)
    (out : Fields)
    → collect_one inserting name g given rest ≡ ok out
    → Round inserting name g given rest out
unfolding collect_one Round
collect_one-inv inserting name g none rest out h = inl (refl, ground arith, ground arith)
collect_one-inv inserting name g (some x) rest out h =
    let (y, c, r) = >>=-eq-ok (check g x) _ h in
    let (later, d, s) = >>=-eq-ok rest _ r in
    let (same, fits) = (check_iff g x y).0 c in inr (x, later, refl, fits, d, cc)

collect-inv :
    (inserting : Bool) (name : String) (g : Field) (spec : Dict Field) (given out : Fields)
    → collect inserting ((name, g) ∷ spec) given ≡ ok out
    → Round inserting name g (lookup name given) (collect inserting spec given) out
unfolding collect
collect-inv inserting name g spec given out h =
    collect_one-inv inserting name g (lookup name given) (collect inserting spec given) out h

collect-unknown :
    (inserting : Bool) (spec : Dict Field) (given out : Fields) (k : String)
    → collect inserting spec given ≡ ok out
    → (lookup k spec ≡ none) ⊎ (lookup k given ≡ none)
    → lookup k out ≡ none
unfolding Round
collect-unknown inserting [] given out k h e = unfold collect lookup in ground arith
collect-unknown inserting ((name, g) ∷ spec) given out k h e =
    elim (collect-inv inserting name g spec given out h) [
      | inl (_, _, r) ↦ collect-unknown inserting spec given out k r (behind e)
      | inr (x, later, n, _, r, o) ↦
          rw (o, lookup-cons, apart x n e)
            (collect-unknown inserting spec given later k r (behind e))
    ]
  where
    behind :
        (lookup k ((name, g) ∷ spec) ≡ none) ⊎ (lookup k given ≡ none)
        → (lookup k spec ≡ none) ⊎ (lookup k given ≡ none)
    behind (inl p) = inl (lookup-cons_none k name g spec p).1
    behind (inr p) = inr p

    apart :
        (x : Value)
        → lookup name given ≡ some x
        → (lookup k ((name, g) ∷ spec) ≡ none) ⊎ (lookup k given ≡ none)
        → str_eq name k ≡ false
    apart x n (inl p) = (lookup-cons_none k name g spec p).0
    apart x n (inr p) = ground (arith, eq_iff name k)

-- The value that a field of the table has in the cleaned payload: the pushed one, which fits, or
-- none, which is allowed.
abbrev pub Kept : Bool → Field → Option Value → Option Value → Type 0
Kept inserting f none after = (after ≡ none) × ((f.required && inserting) ≡ false)
Kept inserting f (some x) after = (after ≡ some x) × Fits f x

collect-Kept :
    (inserting : Bool) (spec : Dict Field) (given out : Fields) (k : String)
    → collect inserting spec given ≡ ok out
    → (f : Field) → lookup k spec ≡ some f
    → Kept inserting f (lookup k given) (lookup k out)
unfolding Round
collect-Kept inserting [] given out k h f e = unfold lookup in cc
collect-Kept inserting ((name, g) ∷ spec) given out k h f e = elim (Bool-cases (str_eq name k)) [
  | inl same ↦
      moved (let q = rw (lookup-cons, same) at e in cc) ((eq_iff name k).0 same)
        (first (collect-inv inserting name g spec given out h))
  | inr other ↦
      later (rw (lookup-cons, other) at e) other (collect-inv inserting name g spec given out h)
        (collect-Kept inserting spec given)
]
  where
    moved :
        g ≡ f
        → name ≡ k
        → Kept inserting g (lookup name given) (lookup name out)
        → Kept inserting f (lookup k given) (lookup k out)
    moved p q x = rw (p, q) at x

    first :
        Round inserting name g (lookup name given) (collect inserting spec given) out
        → Kept inserting g (lookup name given) (lookup name out)
    first (inl (n, q, r)) = rw n (collect-unknown inserting spec given out name r (inr n), q)
    first (inr (x, later, n, fits, r, o)) = rw (n, o, lookup-cons, eq_refl) (refl, fits)

    later :
        lookup k spec ≡ some f
        → str_eq name k ≡ false
        → Round inserting name g (lookup name given) (collect inserting spec given) out
        → ((o : Fields) (j : String)
            → collect inserting spec given ≡ ok o
            → (f' : Field) → lookup j spec ≡ some f'
            → Kept inserting f' (lookup j given) (lookup j o))
        → Kept inserting f (lookup k given) (lookup k out)
    later p other (inl (n, q, r)) ih = ih out k r f p
    later p other (inr (x, rest, n, fits, r, o)) ih = rw (o, lookup-cons, other) (ih rest k r f p)

same_keys :
    (inserting : Bool) (spec : Dict Field) (given out : Fields)
    → known_keys spec given ≡ ok tt
    → collect inserting spec given ≡ ok out
    → (k : String) → lookup k out ≡ lookup k given
same_keys inserting spec given out known c k = elim (Option-cases (lookup k spec)) [
  | inl q ↦ rw (collect-unknown inserting spec given out k c (inl q)) (sym (unpushed q))
  | inr (f, q) ↦
      same f (lookup k given) (lookup k out) (collect-Kept inserting spec given out k c f q)
]
  where
    unpushed : lookup k spec ≡ none → lookup k given ≡ none
    unpushed q = elim (Option-cases (lookup k given)) [
      | inl n ↦ n
      | inr (x, e) ↦ (let (f, p) = known_keys_sound spec given k x known e in cc)
    ]

    same :
        (f : Field) (before after : Option Value) → Kept inserting f before after → after ≡ before
    same f none after h = h.0
    same f (some x) after h = h.0

pushed-Fits :
    (inserting : Bool) (spec : Dict Field) (given out : Fields)
    → known_keys spec given ≡ ok tt
    → collect inserting spec given ≡ ok out
    → (k : String) (x : Value) → lookup k given ≡ some x
    → (f : Field) × (lookup k spec ≡ some f) × Fits f x
pushed-Fits inserting spec given out known c k x e =
    let (f, p) = known_keys_sound spec given k x known e in
    let kept = rw e at (collect-Kept inserting spec given out k c f p) in (f, p, kept.1)

required-pushed :
    (inserting : Bool) (spec : Dict Field) (given out : Fields)
    → collect inserting spec given ≡ ok out
    → (k : String) (f : Field) → lookup k spec ≡ some f
    → (f.required && inserting) ≡ true
    → lookup k given ≢ none
required-pushed inserting spec given out c k f p r n =
    let kept = rw n at (collect-Kept inserting spec given out k c f p) in let free = kept.1 in cc

-- A payload that `clean_fields` accepts has no key that its table does not know. The result holds
-- under each key what was pushed, unchanged and fitting its field, and of an insert no field that
-- is required is missing.
pub clean_fields-kept :
    (table op : String) (given out : Fields)
    → clean_fields table op given ≡ ok out
    → (spec : Dict Field) × (spec_of table (str_eq op "insert") ≡ some spec)
      × ((k : String) → lookup k out ≡ lookup k given)
      × ((k : String) (x : Value)
          → lookup k given ≡ some x
          → (f : Field) × (lookup k spec ≡ some f) × Fits f x)
      × ((k : String) (f : Field)
          → lookup k spec ≡ some f
          → (f.required && str_eq op "insert") ≡ true
          → lookup k given ≢ none)
unfolding clean_fields
clean_fields-kept table op given out h =
    let (spec, s, r) = >>=-eq-ok (or_raise (spec_of table (str_eq op "insert")) crash) _ h in
    let (known, c) = >>-eq-ok (known_keys spec given) _ r in
    (
      spec,
      found (spec_of table (str_eq op "insert")) s,
      same_keys _ spec given out known c,
      pushed-Fits _ spec given out known c,
      required-pushed _ spec given out c,
    )
  where
    found :
        {spec : Dict Field} (o : Option (Dict Field)) → or_raise o crash ≡ ok spec → o ≡ some spec
    found none p = cc
    found (some spec) p = cc
