-- ===== src/Stats/Totals.antt =====
-- What the statistics of src/tcmalloc.cpp add up to.
use native.Mathlib.Nat.{add-zero}
use ferp.Common.{
  ℕ, zero, suc, ◌+◌, ◌-◌, ◌*◌, ◌/◌, ◌%◌, ◌^◌, ◌<◌, ◌≡◌, ◌∙◌, ap, refl, some, List, [], ◌∷◌, arith,
  ltb, ◌==◌, if◌then◌else◌, length, fun_ext,
}
use ferp.Common.Bits.{u64_mod, u32_mod}
use ferp.Common.Sums.{sum_below}
use ferp.SizeClass.{Tables, num_classes, byte_size_for_class}
use ferp.PageMap.Interface.{PageMap}
use ferp.PageHeap.{Ptr, System, PageHeap, add64, sub64, int_of}
use ferp.Central.{PageSource, Store, Central}
use ferp.PageHeap.Rings.{chained}
use ferp.Central.Counted.{Counted}
use ferp.Central.Transfer.{moves}
use ferp.Central.Transfer.Batches.{AreFull, IsGood}
use ferp.ThreadCache.{ThreadCache}
use ferp.ThreadCache.Caches.{
  Caches, min_thread_cache_size, max_thread_cache_size, recompute_thread_cache_size, thread_share,
}
use ferp.ThreadCache.Caches.Tracked.{Tracked}
use ferp.Stats.{
  TcmallocStats, central_length, tc_length, add_classes, add_caches, extract_stats, bytes_in_use,
  Property, get_numeric_property, set_numeric_property, set_max_total, clamped, mallinfo,
}

-- Several differences as one.
sub64-sub64 :
    (a b c : ℕ)
    → b < u64_mod
    → c < u64_mod
    → sub64 (sub64 a b) c ≡ (a + 2 * u64_mod - (b + c)) % u64_mod
sub64-sub64 a b c h k = omega arith

three_differences :
    (a b c d : ℕ)
    → b < u64_mod
    → c < u64_mod
    → d < u64_mod
    → sub64 (sub64 (sub64 a b) c) d ≡ (a + 3 * u64_mod - (b + c + d)) % u64_mod
three_differences a b c d h k l = omega (arith, sub64-sub64 a b c h k)

four_differences :
    (a b c d e : ℕ)
    → b < u64_mod
    → c < u64_mod
    → d < u64_mod
    → e < u64_mod
    → sub64 (sub64 (sub64 (sub64 a b) c) d) e ≡ (a + 4 * u64_mod - (b + c + d + e)) % u64_mod
four_differences a b c d e h k l m = omega (arith, three_differences a b c d h k l)

-- `generic.current_allocated_bytes` has the bytes in the transfer caches, which are not in the
-- number that DumpStats prints as bytes in use; the `uordblks` of mallinfo is the low word of
-- that number.
pub allocated-bytes_in_use :
    (r : TcmallocStats) (overall : ℕ)
    → r.system_bytes < u64_mod
    → r.thread_bytes < u64_mod
    → r.central_bytes < u64_mod
    → r.transfer_bytes < u64_mod
    → r.pageheap_bytes < u64_mod
    → (get_numeric_property r overall Property.current_allocated_bytes
        ≡ some (add64 (bytes_in_use r) r.transfer_bytes))
      × ((mallinfo r).uordblks ≡ bytes_in_use r % u32_mod)
unfolding get_numeric_property bytes_in_use mallinfo
allocated-bytes_in_use r overall a b c d e =
    let printed =
      four_differences r.system_bytes r.pageheap_bytes r.central_bytes r.transfer_bytes
        r.thread_bytes e c d b in
    let property =
      three_differences r.system_bytes r.thread_bytes r.central_bytes r.pageheap_bytes b c e in
    let fields =
      four_differences r.system_bytes r.thread_bytes r.central_bytes r.transfer_bytes
        r.pageheap_bytes b c d e in
    (
      rw (property, printed) (ap some (omega arith)),
      rw (fields, printed) (ap (λ x. x % u32_mod) (omega arith)),
    )

-- A sum over the classes, as a 64-bit word.
abbrev pub class_sum : (ℕ → ℕ) → ℕ → ℕ
class_sum f n = sum_below f n % u64_mod

class_sum-next : (f : ℕ → ℕ) (n : ℕ) → add64 (class_sum f n) (f n % u64_mod) ≡ class_sum f (n + 1)
unfolding sum_below
class_sum-next f n = let one : n + 1 ≡ suc n = omega arith in rw one (omega arith)

module _ (t : Tables) (central : ℕ → Central) where
  abbrev chain_bytes : ℕ → ℕ
  chain_bytes j = byte_size_for_class t j * central_length (central j)

  abbrev slot_bytes : ℕ → ℕ
  slot_bytes j = byte_size_for_class t j * tc_length t j (central j)

  add_classes-sums :
      (left cl : ℕ)
      → add_classes t central left cl (class_sum chain_bytes cl, class_sum slot_bytes cl)
        ≡ (class_sum chain_bytes (cl + left), class_sum slot_bytes (cl + left))
  unfolding add_classes
  add_classes-sums zero cl = rw (add-zero cl) refl
  add_classes-sums (suc left) cl =
      let shift : cl + suc left ≡ cl + 1 + left = omega arith in
      rw (shift, class_sum-next chain_bytes cl, class_sum-next slot_bytes cl)
        (add_classes-sums left (cl + 1))

-- The objects of all batches.
abbrev pub batched : List (List Ptr) → ℕ
batched [] = 0
batched (batch ∷ slots) = length batch + batched slots

batched-AreFull :
    (m : ℕ) (slots : List (List Ptr)) → AreFull m slots → length slots * m ≡ batched slots
batched-AreFull m [] f = omega arith
batched-AreFull m (batch ∷ slots) f = grind (arith, batched-AreFull m slots f.1, f.0)

int_of-small : (a : ℕ) → a < 2 ^ 31 → int_of (a % u64_mod) ≡ a
unfolding int_of
int_of-small a h = ground arith

int_of-same : (a : ℕ) → a < 2 ^ 31 → int_of a ≡ a
unfolding int_of
int_of-same a h = ground arith

pub total_size : (Ptr → ThreadCache) → List Ptr → ℕ
total_size cache [] = 0
total_size cache (p ∷ ps) = (cache p).size + total_size cache ps

add_caches-total :
    (cache : Ptr → ThreadCache) (ps : List Ptr) (n : ℕ)
    → n < u64_mod
    → add_caches cache ps n ≡ (n + total_size cache ps) % u64_mod
unfolding add_caches total_size
add_caches-total cache [] n h = omega arith
add_caches-total cache (p ∷ ps) n h =
    add_caches-total cache ps (add64 n (cache p).size) (omega arith) ∙ omega arith

-- With every central list counted right, only full batches in its transfer slots, and in either fewer
-- than 2 ^ 31 objects, ExtractStats answers, as 64-bit words, the sums over all classes of the bytes of
-- the objects in the chains of spans and in the batches, and over all thread caches of their `size_`.
pub extract_stats-Totals :
    (t : Tables) {S : PageSource} {Z : Type 0} {P : PageMap} {Y : System} (s : Store S)
    (m : Caches Z) (h : PageHeap P Y)
    → ((j : ℕ) → Counted (s.central j) s.objects)
    → ((j : ℕ) → chained s.objects (s.central j).nonempty < 2 ^ 31)
    → IsGood t s
    → ((j : ℕ) → batched (s.central j).slots < 2 ^ 31)
    → ((extract_stats t s m h).central_bytes
        ≡ class_sum
            (λ j. byte_size_for_class t j * chained s.objects (s.central j).nonempty)
            num_classes)
      × ((extract_stats t s m h).transfer_bytes
          ≡ class_sum (λ j. byte_size_for_class t j * batched (s.central j).slots) num_classes)
      × ((extract_stats t s m h).thread_bytes ≡ total_size m.cache m.heaps % u64_mod)
unfolding extract_stats sum_below central_length tc_length
extract_stats-Totals t s m h counted few good batches =
    let sums = add_classes-sums t s.central num_classes 0 in
    let spans : (j : ℕ) → int_of (s.central j).counter ≡ chained s.objects (s.central j).nonempty =
      λ j. rw (counted j).count (int_of-small (chained s.objects (s.central j).nonempty) (few j)) in
    let slots : (j : ℕ)
        → int_of (length (s.central j).slots * moves t j) ≡ batched (s.central j).slots =
      λ j.
        rw (batched-AreFull (moves t j) (s.central j).slots (good j))
          (int_of-same (batched (s.central j).slots) (batches j)) in
    (
      ap (λ x. x.0) sums
          ∙ ap (λ f. class_sum (λ j. byte_size_for_class t j * f j) num_classes) (fun_ext spans),
      ap (λ x. x.1) sums
          ∙ ap (λ f. class_sum (λ j. byte_size_for_class t j * f j) num_classes) (fun_ext slots),
      add_caches-total m.cache m.heaps 0 (omega arith) ∙ omega arith,
    )

-- SetNumericProperty of the overall size sets it to the value, or to kMinThreadCacheSize for a value
-- below it, or to 2 ^ 30 for one above that; GetNumericProperty then answers it. Every cache's share is
-- between kMinThreadCacheSize and kMaxThreadCacheSize, and is the whole part of the overall size
-- through the number of caches if that lies between them.
pub set_numeric_property-Tracked :
    {Z : Type 0} (value : ℕ) (m : Caches Z) (r : TcmallocStats)
    → Tracked m
    → let m' = (set_numeric_property Property.max_total_thread_cache_bytes value m).1 in
      let count = if m.heap_count == 0 then 1 else m.heap_count in
      let even = m'.overall_size / count in
      Tracked m'
      × (m'.overall_size ≡ (
          if ltb value min_thread_cache_size
          then min_thread_cache_size
          else if ltb (2 ^ 30) value
          then 2 ^ 30
          else value))
      × (get_numeric_property r m'.overall_size Property.max_total_thread_cache_bytes
          ≡ some m'.overall_size)
      × (m'.per_thread_size ≡ (
          if ltb even min_thread_cache_size
          then min_thread_cache_size
          else if ltb max_thread_cache_size even
          then max_thread_cache_size
          else even))
unfolding set_numeric_property set_max_total clamped get_numeric_property
    recompute_thread_cache_size thread_share
set_numeric_property-Tracked value m r v = (
  record { distinct = v.distinct; count = v.count; share = refl },
  ground arith,
  refl,
  ground arith,
)
