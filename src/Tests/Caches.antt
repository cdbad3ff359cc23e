-- ===== src/Tests/Caches.antt =====
-- The results on the cache, at a cache of two entries.
use native.Mathlib.Decide.{ℕ_discrete}
use mathlib.Core.List.{lookup, foldl}
use mathlib.Core.Option
use proxi.Base.{
  ℕ, ◌≡◌, ◌≢◌, refl, List, [], ◌∷◌, ok, fault, annotated, undefined, true, false, arith,
}
use proxi.SimpleCache.{SimpleCache, empty, insert, erase, has, find}
use proxi.SimpleCache.Links.{view}
use proxi.SimpleCache.Refines.{IsValid, insert-refines, erase-refines}
use proxi.SimpleCache.Reads.{
  Call, insert_call, erase_call, or_fault, run, note, run-refines, find-insert, find-erase,
  insert_at_one,
}
use proxi.SimpleCache.Fifo

abbrev two_entries : SimpleCache ℕ ℕ
two_entries = record {
  values =
      record { id = 1; key = 10; value = 100; next = 2; prev = 0 }
      ∷ record { id = 2; key = 20; value = 200; next = 0; prev = 1 }
      ∷ [];
  first = 1;
  last = 2;
  fresh = 3;
}

abbrev one_entry : SimpleCache ℕ ℕ
one_entry = record {
  values = record { id = 1; key = 10; value = 100; next = 0; prev = 0 } ∷ [];
  first = 1;
  last = 1;
  fresh = 2;
}

two_entries-IsValid : IsValid 2 two_entries
two_entries-IsValid = record {
  shape = omega arith;
  bounded = omega arith;
  distinct = ((omega arith, tt), (tt, tt));
}

one_entry-IsValid : IsValid 1 one_entry
one_entry-IsValid = record { shape = omega arith; bounded = omega arith; distinct = (tt, tt) }

abbrev calls : List (Call ℕ ℕ)
calls =
    insert_call 10 100
    ∷ insert_call 20 200
    ∷ erase_call 10
    ∷ insert_call 30 300
    ∷ insert_call 40 400
    ∷ []

run-refines_example :
    (c : SimpleCache ℕ ℕ) × (run ℕ_discrete 2 calls empty ≡ ok c)
    × IsValid 2 c
    × (view c.values ≡ foldl (note ℕ_discrete 2) [] calls)
run-refines_example = run-refines ℕ_discrete 2 calls (omega arith)

insert-refines_example :
    (c' : SimpleCache ℕ ℕ) × (insert ℕ_discrete 2 two_entries 30 300 ≡ ok c')
    × IsValid 2 c'
    × (view c'.values ≡ Fifo.insert ℕ_discrete 2 30 300 (view two_entries.values))
insert-refines_example =
    insert-refines ℕ_discrete 2 two_entries 30 300 (omega arith) two_entries-IsValid

erase-refines_example :
    (c' : SimpleCache ℕ ℕ) × (erase ℕ_discrete two_entries 10 ≡ ok c')
    × IsValid 2 c'
    × (view c'.values ≡ Fifo.remove ℕ_discrete 10 (view two_entries.values))
erase-refines_example = erase-refines ℕ_discrete 2 two_entries 10 two_entries-IsValid

find-insert_example :
    (c' : SimpleCache ℕ ℕ) × (insert ℕ_discrete 2 two_entries 30 300 ≡ ok c')
    × (has ℕ_discrete c' 30 ≡ true)
    × (find ℕ_discrete c' 30
        ≡ ok (Option.get_or (lookup ℕ_discrete 30 (Fifo.evict 2 (view two_entries.values))) 300))
    × ((j : ℕ)
        → j ≢ 30
        → find ℕ_discrete c' j
          ≡ or_fault (lookup ℕ_discrete j (Fifo.evict 2 (view two_entries.values))))
find-insert_example = find-insert ℕ_discrete 2 two_entries 30 300 (omega arith) two_entries-IsValid

find-erase_example :
    (c' : SimpleCache ℕ ℕ) × (erase ℕ_discrete two_entries 10 ≡ ok c')
    × (has ℕ_discrete c' 10 ≡ false)
    × (find ℕ_discrete c' 10 ≡ fault annotated)
    × ((j : ℕ) → j ≢ 10 → find ℕ_discrete c' j ≡ find ℕ_discrete two_entries j)
find-erase_example = find-erase ℕ_discrete 2 two_entries 10 two_entries-IsValid

insert_at_one_example : insert ℕ_discrete 1 one_entry 20 200 ≡ fault undefined
insert_at_one_example = insert_at_one ℕ_discrete one_entry 20 200 one_entry-IsValid refl
