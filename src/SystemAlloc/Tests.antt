-- ===== src/SystemAlloc/Tests.antt =====
-- The theorems on the system's memory with a small system: sbrk() and the device fail, and mmap()
-- hands out pages one after the other.
use ferp.Common.{
  ℕ, ◌+◌, ◌*◌, ◌/◌, ◌%◌, ◌^◌, ◌<◌, ◌≡◌, refl, Bool, true, false, ◌&&◌, ◌||◌, Option, none, some,
  if◌then◌else◌, ltb, leb, ◌==◌, inl, inr, ◌⊎◌, arith, Bool-cases,
}
use ferp.SystemAlloc.{Kernel, Settings, State, failed, round_up, system_alloc, try_mmap}
use ferp.SystemAlloc.Regions.{Granted, Lawful, AreSame}
use ferp.SystemAlloc.Attempts.{MapAnswer, try_mmap-Mapped}
use ferp.SystemAlloc.Answers.{Answer}
use ferp.SystemAlloc.Alloc.{used, system_alloc-Answer}
use ferp.SystemAlloc.Ready.{Roomy}
use ferp.SystemAlloc.Retry.{mapping_size, system_alloc-succeeds}

record Pages : Type 0 where
  next : ℕ
  has : ℕ → Bool

abbrev address : Pages → ℕ
address s = (s.next + 1) * 4096

abbrev pages_held : Pages → ℕ → Bool
pages_held s x = ltb x (address s) && s.has x

abbrev map_pages : Option ℕ → ℕ → Pages → ℕ × Pages
map_pages (some offset) n s = (failed, s)
map_pages none n s = if (n == 0) || ltb (2 ^ 63) (address s + n) then (failed, s) else (
  address s,
  record {
    next = s.next + (n + 4095) / 4096;
    has = λ x. if ltb x (address s) then s.has x else ltb x (address s + n);
  },
)

abbrev unmap_pages : ℕ → ℕ → Pages → Pages
unmap_pages p n s = record s { has = λ x. if leb p x && ltb x (p + n) then false else s.has x }

abbrev small_system : Kernel Pages
small_system = record {
  sbrk = λ n s. (failed, s);
  map = map_pages;
  munmap = unmap_pages;
  open_dev_mem = λ s. (false, s);
  page_size = 4096;
}

map_pages-Granted :
    (n : ℕ) (s : Pages)
    → ((n == 0) || ltb (2 ^ 63) (address s + n)) ≡ false
    → Granted (pages_held s) (pages_held (map_pages none n s).1) (address s) n
map_pages-Granted n s e = rw e (record {
  positive = omega arith;
  below = ground arith;
  fresh = λ x h k. ground arith;
  taken = λ x h k. ground arith;
  others = λ x o. ground arith;
})

map_pages-answer :
    (offset : Option ℕ) (n : ℕ) (s : Pages)
    → (((map_pages offset n s).0 ≡ failed)
        × AreSame (pages_held s) (pages_held (map_pages offset n s).1))
      ⊎ ((0 < n)
          × ((map_pages offset n s).0 % 4096 ≡ 0)
          × Granted (pages_held s) (pages_held (map_pages offset n s).1) (map_pages offset n s).0 n)
map_pages-answer (some o) n s = inl (refl, λ x. refl)
map_pages-answer none n s = elim (Bool-cases ((n == 0) || ltb (2 ^ 63) (address s + n))) [
  | inl e ↦ inl (rw e (refl, λ x. refl))
  | inr e ↦
      let given : (map_pages none n s).0 ≡ address s = rw e refl in
      inr (ground arith, ground (arith, given), rw given (map_pages-Granted n s e))
]

small_system-Lawful : Lawful small_system pages_held
small_system-Lawful = record {
  pages = (12, refl);
  small = omega arith;
  sbrk = λ n s h. inl (refl, λ x. refl);
  map = map_pages-answer;
  munmap = λ p n s h k pos. (λ x l u. ground arith, λ x o. ground arith);
  open_dev_mem = λ s x. refl;
}

abbrev settings : Settings
settings = record {
  use_devmem = true;
  use_sbrk = true;
  use_mmap = true;
  devmem_start = 0;
  devmem_limit = 0;
}

-- A failure of mmap() is noted.
abbrev first : State Pages
first = record {
  system = record { next = 0; has = λ x. false };
  pagesize = 0;
  devmem_failure = false;
  sbrk_failure = false;
  mmap_failure = true;
  initialized = false;
  physmem_base = 0;
  physmem_limit = 0;
}

system_alloc-Answer_example :
    Answer small_system pages_held
      (pages_held first.system)
      (system_alloc small_system settings 100000 65536 first)
      100000
      (used 65536)
system_alloc-Answer_example =
    system_alloc-Answer small_system pages_held small_system-Lawful settings 100000 65536 first
      (inr (16, refl)) (omega arith) (omega arith) (inl refl)

try_mmap-Mapped_example :
    MapAnswer small_system pages_held
      (pages_held first.system)
      (try_mmap small_system 100000 65536 first)
      100000
      65536
try_mmap-Mapped_example =
    try_mmap-Mapped small_system pages_held small_system-Lawful 100000 65536 first (16, refl)
      (omega arith) (inl refl)

abbrev has_room : Pages → Bool
has_room s = ltb s.next 1000

has_room-Roomy : (n : ℕ) → 0 < n → n < 2 ^ 40 → Roomy small_system n has_room
has_room-Roomy n h k = record {
  map = λ s r. ground arith;
  sbrk = λ m s r. r;
  device = λ o m s r. r;
  munmap = λ p m s r. r;
  open_dev_mem = λ s r. r;
}

mapping_size_100000 : mapping_size 4096 100000 65536 ≡ 192512
unfolding round_up
mapping_size_100000 = refl

system_alloc-succeeds_example : 0 < (system_alloc small_system settings 100000 65536 first).0
system_alloc-succeeds_example =
    system_alloc-succeeds small_system pages_held small_system-Lawful has_room settings 100000 65536
      first refl (inr (16, refl)) (omega arith) (omega arith) (inl refl)
      (has_room-Roomy (mapping_size 4096 100000 65536) (omega (arith, mapping_size_100000))
        (omega (arith, mapping_size_100000)))
      refl
