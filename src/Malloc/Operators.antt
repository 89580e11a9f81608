-- ===== src/Malloc/Operators.antt =====
-- operator new of src/tcmalloc.cpp. The new handler is the program's: a function of the state, or
-- none, which returns or throws std::bad_alloc.
use ferp.Common.{ℕ, zero, suc, Bool, true, false, Option, none, some, ◌==◌, if◌then◌else◌}
use ferp.PageMap.Interface.{PageMap}
use ferp.PageHeap.{Ptr, null, System}
use ferp.Malloc.{Caching, World, do_malloc}

pub data NewOutcome : Type 0 where
  answered : Ptr → NewOutcome
  bad_alloc : NewOutcome

module _ {P : PageMap} {Y : System} {K : Caching P Y} where
  -- The loop of cpp_alloc, on fuel; a handler answers whether it returned and the state after it; `none` is abort() or no fuel left.
  pub cpp_alloc :
      ℕ
      → (World K → Option (World K → Bool × World K))
      → Bool
      → ℕ
      → World K
      → Option (NewOutcome × World K)
  cpp_alloc zero handler nothrow size w = none
  cpp_alloc (suc fuel) handler nothrow size w = elim (do_malloc size w) [
    | none ↦ none
    | some (p, w') ↦
        if p == null
        then elim (handler w') [
          | none ↦ some (if nothrow then answered null else bad_alloc, w')
          | some handle ↦
              let (returned, w'') = handle w' in
              elim returned [
                | true ↦ cpp_alloc fuel handler nothrow size w''
                | false ↦ some (if nothrow then answered p else bad_alloc, w'')
              ]
        ]
        else some (answered p, w')
  ]
