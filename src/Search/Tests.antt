-- ===== src/Search/Tests.antt =====
-- The matcher that packet.c makes for the start of a FIX message, at work.
use vmars.Prelude.{ℕ, ◌≡◌, refl, List, none, some, Pointer, pointer_to, replicate, arith}
use vmars.Prelude.Text.{codes, fix_text}
use vmars.Search.{Matcher, table_size, fill, boyermoore_init, boyermoore_search}
use vmars.Search.Correct.{IsFirstFrom, boyermoore_search-IsFirst}

abbrev begin_string : List ℕ
begin_string = codes "8=FIX.4."

abbrev text : Pointer
text = pointer_to (fix_text "xx8=FIX.3.8=FIX.4.2|9=")

abbrev matcher : Matcher
matcher = record {
  pattern = begin_string;
  len = 8;
  bad_match = unfold fill in fill 7 begin_string 8 0 (replicate table_size 8);
}

found : boyermoore_search matcher text 22 ≡ some 10
unfolding boyermoore_init boyermoore_search
found = refl

too_short : boyermoore_search matcher text 17 ≡ none
unfolding boyermoore_init boyermoore_search
too_short = refl

boyermoore_search-IsFirst_example :
    IsFirstFrom 0 begin_string text 22 (boyermoore_search matcher text 22)
unfolding boyermoore_init
boyermoore_search-IsFirst_example =
    boyermoore_search-IsFirst begin_string text 22 refl (omega arith)
