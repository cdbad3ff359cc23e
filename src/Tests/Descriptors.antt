-- ===== src/Tests/Descriptors.antt =====
-- The results on the objects that own descriptors: one is opened, moved into another object, and
-- assigned back before both end.
use proxi.Base.{[], ◌∷◌, refl, arith}
use proxi.FileDescriptor.{
  Objects, get, put, end_of, construct, of_call, swap, construct_from, assign, destroy,
}
use proxi.FileDescriptor.Owners.{Uses, Uses-Once, Once}

abbrev none_held : Objects
none_held = record { held = []; closed = [] }

abbrev one : Objects
one = record { held = (1, 5) ∷ []; closed = [] }

abbrev moved : Objects
moved = record { held = (2, 5) ∷ (1, 0) ∷ []; closed = [] }

abbrev back : Objects
back = record { held = (2, 0) ∷ (1, 5) ∷ []; closed = [] }

abbrev first_ended : Objects
first_ended = record { held = (2, 0) ∷ []; closed = 5 ∷ [] }

abbrev both_ended : Objects
both_ended = record { held = []; closed = 5 ∷ [] }

Uses-Once_example : Once 5 (5 ∷ []) both_ended
unfolding get put end_of construct of_call swap construct_from assign destroy
Uses-Once_example = Uses-Once 5 (omega arith) (
    Uses.ends {o = first_ended} 2
      (Uses.ends {o = back} 1
        (Uses.assigns {o = moved} 1 2
          (Uses.moves {o = one} 2 1 (Uses.opens {o = none_held} 1 5 Uses.start refl refl refl) refl
            refl)
          refl)
        refl)
      refl)
