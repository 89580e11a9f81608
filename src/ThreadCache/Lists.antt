-- ===== src/ThreadCache/Lists.antt =====
-- The central lists as the thread caches of src/tcmalloc.cpp use them, and the laws that they
-- keep.
use ferp.SizeClass.{Tables}
use ferp.Central.{PageSource, Store}
use ferp.Central.Transfer.{insert_range, remove_range}
use ferp.Central.Transfer.Batches.{IsGood, insert_range-IsGood, remove_range-IsGood}
use ferp.ThreadCache.{Center}
use ferp.ThreadCache.Release.{CenterLaws}

module _ (t : Tables) (S : PageSource) where
  abbrev pub central_lists : Center
  central_lists = record {
    State = Store S;
    remove_range = remove_range t;
    insert_range = insert_range t;
  }

  abbrev pub central_laws : CenterLaws central_lists
  central_laws = record {
    IsGood = IsGood t;
    insert_range-IsGood = insert_range-IsGood t;
    remove_range-IsGood = remove_range-IsGood t;
  }
