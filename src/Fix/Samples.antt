-- ===== src/Fix/Samples.antt =====
-- A table of fragments and a capture thread, for the tests.
use vmars.Prelude.{◌≡◌, refl, [], arith, List, none, replicate}
use vmars.Prelude.Text.{codes}
use vmars.Search.{fill, boyermoore_init}
use vmars.Parser.Encode.{fix42}
use vmars.Fix.Messages.{begin_string, Message, IsMessage}
use vmars.Fix.Next.{IsBegin}
use vmars.KHash.{KHash, association_list}
use vmars.Counters.{no_counters}
use vmars.Ring.Fifo.{start}
use vmars.Fix.Process.{Context}
use vmars.Fix.Fragments.{
  Ipv4Stream, Fragment, get_fragment, ipv4_stream_equal, ipv4_stream_equal_iff,
}

abbrev pub fragments : KHash Ipv4Stream Fragment
fragments = association_list ipv4_stream_equal (λ a b. (ipv4_stream_equal_iff a b).0)

abbrev pub context : Context (List (Ipv4Stream × Fragment))
context = record {
  counters = no_counters;
  rb = (start 7 (λ i. 0)).rb;
  matcher = record { pattern = codes "8=FIX.4."; len = 8; bad_match = replicate 256 8 };
  state = none;
}

abbrev pub order : Message
order = record { version = fix42; first = record { tag = 35; value = codes "D" }; others = [] }

pub order-IsMessage : IsMessage order
order-IsMessage = ((omega arith, ((λ e. absurd (omega (arith, e))), tt)), tt)

abbrev pub capture : Context (List (Ipv4Stream × Fragment))
unfolding fill
capture = record context {
  matcher = record {
    pattern = begin_string;
    len = 8;
    bad_match = fill 7 begin_string 8 0 (replicate 256 8);
  };
}

pub capture-IsBegin : IsBegin capture.matcher
unfolding boyermoore_init
capture-IsBegin = refl

pub get_fragment-capture : (id : Ipv4Stream) → get_fragment fragments capture id ≡ none
unfolding get_fragment capture
get_fragment-capture id = refl

pub capture-rb : capture.rb ≡ (start 7 (λ i. 0)).rb
unfolding capture
capture-rb = refl
