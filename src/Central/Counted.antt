-- ===== src/Central/Counted.antt =====
-- `counter_` of a TCMalloc_Central_FreeList in src/tcmalloc.cpp is the number of objects in the
-- chains of its spans: the invariant, and the moves of a span between the two rings.
use ferp.Common.{
  ℕ, ◌+◌, ◌%◌, ◌<◌, ◌≡◌, inl, inr, true, false, ◌||◌, List, [], ◌∷◌, update, length, arith,
  Bool-cases,
}
use ferp.Common.Bits.{u64_mod}
use ferp.PageHeap.{has, Ptr, dll_remove, add64, sub64}
use ferp.PageHeap.Rings.{
  Distinct, chained, dll_remove-absent, has-dll_remove, Distinct-dll_remove, chained-update,
  chained-dll_remove,
}
use ferp.Central.{Central, is_empty}

-- No ring has a span twice, exactly the spans of `nonempty_` have a chain, and the counter is
-- the number of the objects in them.
pub record Counted (c : Central) (objects : Ptr → List Ptr) : Type 0 where
  pub distinct : Distinct c.nonempty
  pub distinct_empty : Distinct c.empty
  pub chains : (p : Ptr) → has p c.nonempty ≡ true → is_empty (objects p) ≡ false
  pub no_chains : (p : Ptr) → has p c.empty ≡ true → is_empty (objects p) ≡ true
  pub count : c.counter ≡ chained objects c.nonempty % u64_mod

-- The members after an object of the span has gone out.
abbrev pub emptied : Ptr → Central → Central
emptied span c = record c {
  empty = span ∷ dll_remove span c.empty;
  nonempty = dll_remove span c.nonempty;
  counter = sub64 c.counter 1;
}

abbrev pub lessened : Central → Central
lessened c = record c { counter = sub64 c.counter 1 }

module _ (c : Central) (objects : Ptr → List Ptr) (span object : Ptr) (spans : List Ptr)
    (e : c.nonempty ≡ span ∷ spans) (v : Counted c objects) where
  pub emptied-Counted :
      objects span ≡ object ∷ [] → Counted (emptied span c) (update objects span [])
  unfolding is_empty dll_remove
  emptied-Counted f = record {
    distinct = Distinct-dll_remove span c.nonempty v.distinct;
    distinct_empty = ground (
      arith,
      has-dll_remove span span c.empty v.distinct_empty,
      Distinct-dll_remove span c.empty v.distinct_empty,
    );
    chains = λ p h. ground (arith, has-dll_remove span p c.nonempty v.distinct, v.chains p);
    no_chains =
        λ p h. ground (arith, has-dll_remove span p c.empty v.distinct_empty, v.no_chains p);
    count = ground (
      arith,
      v.count,
      chained-update objects span [] spans,
      v.distinct,
      dll_remove-absent span spans,
      e,
      f,
    );
  }

  pub lessened-Counted :
      (next : Ptr) (rest : List Ptr)
      → objects span ≡ object ∷ next ∷ rest
      → Counted (lessened c) (update objects span (next ∷ rest))
  unfolding is_empty
  lessened-Counted next rest f = record {
    distinct = v.distinct;
    distinct_empty = v.distinct_empty;
    chains = λ p h. ground (arith, v.chains p);
    no_chains = λ p h. ground (arith, v.no_chains p, f);
    count =
        ground (arith, v.count, chained-update objects span (next ∷ rest) spans, v.distinct, e, f);
  }

-- The members after an object of the span has come back.
abbrev pub refilled : Ptr → Central → Central
refilled span c = record c {
  empty = dll_remove span c.empty;
  nonempty = span ∷ dll_remove span c.nonempty;
  counter = add64 c.counter 1;
}

abbrev pub raised : Central → Central
raised c = record c { counter = add64 c.counter 1 }

-- The members after the last object of the span, one of `n`, has come back.
abbrev pub returned : Ptr → ℕ → Central → Central
returned span n c = record c {
  empty = dll_remove span c.empty;
  nonempty = dll_remove span c.nonempty;
  counter = sub64 (add64 c.counter 1) n;
}

module _ (c : Central) (objects : Ptr → List Ptr) (span object : Ptr) (v : Counted c objects) where
  pub refilled-Counted :
      has span c.empty ≡ true
      → objects span ≡ []
      → Counted (refilled span c) (update objects span (object ∷ []))
  unfolding is_empty
  refilled-Counted i f = record {
    distinct = ground (
      arith,
      has-dll_remove span span c.nonempty v.distinct,
      Distinct-dll_remove span c.nonempty v.distinct,
    );
    distinct_empty = Distinct-dll_remove span c.empty v.distinct_empty;
    chains = λ p h. ground (arith, has-dll_remove span p c.nonempty v.distinct, v.chains p);
    no_chains =
        λ p h. ground (arith, has-dll_remove span p c.empty v.distinct_empty, v.no_chains p);
    count = ground (
      arith,
      v.count,
      v.chains span,
      has-dll_remove span span c.nonempty v.distinct,
      chained-update objects span (object ∷ []) (dll_remove span c.nonempty),
      dll_remove-absent span c.nonempty,
    );
  }

  pub raised-Counted :
      (next : Ptr) (rest : List Ptr)
      → has span c.nonempty ≡ true
      → objects span ≡ next ∷ rest
      → Counted (raised c) (update objects span (object ∷ next ∷ rest))
  unfolding is_empty
  raised-Counted next rest i f = record {
    distinct = v.distinct;
    distinct_empty = v.distinct_empty;
    chains = λ p h. ground (arith, v.chains p);
    no_chains = λ p h. ground (arith, v.no_chains p, f);
    count = ground (
      arith,
      v.count,
      chained-dll_remove objects span c.nonempty,
      chained-dll_remove (update objects span (object ∷ next ∷ rest)) span c.nonempty,
      has-dll_remove span span c.nonempty v.distinct,
      chained-update objects span (object ∷ next ∷ rest) (dll_remove span c.nonempty),
    );
  }

  pub no_chain-length : is_empty (objects span) ≡ true → length (objects span) ≡ 0
  unfolding is_empty
  no_chain-length h = ground arith

  returned-count :
      (has span c.nonempty || has span c.empty) ≡ true
      → length (objects span) + 1 < u64_mod
      → sub64 (add64 c.counter 1) (length (objects span) + 1)
        ≡ chained objects (dll_remove span c.nonempty) % u64_mod
  returned-count i w = elim (Bool-cases (has span c.nonempty)) [
    | inl within ↦ omega (arith, v.count, chained-dll_remove objects span c.nonempty within)
    | inr out ↦
        let none : length (objects span) ≡ 0 =
          no_chain-length (v.no_chains span (ground (arith, out))) in
        rw (dll_remove-absent span c.nonempty out) (omega (arith, v.count, none))
  ]

  pub returned-Counted :
      (has span c.nonempty || has span c.empty) ≡ true
      → length (objects span) + 1 < u64_mod
      → Counted (returned span (length (objects span) + 1) c) objects
  unfolding is_empty
  returned-Counted i w = record {
    distinct = Distinct-dll_remove span c.nonempty v.distinct;
    distinct_empty = Distinct-dll_remove span c.empty v.distinct_empty;
    chains = λ p h. ground (arith, has-dll_remove span p c.nonempty v.distinct, v.chains p);
    no_chains =
        λ p h. ground (arith, has-dll_remove span p c.empty v.distinct_empty, v.no_chains p);
    count = returned-count i w;
  }
