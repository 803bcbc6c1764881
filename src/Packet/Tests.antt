-- ===== src/Packet/Tests.antt =====
-- A block of two packets: one of another protocol, and one with the first bytes of a message.
use vmars.Prelude.{◌*◌, ◌≡◌, refl, List, [], ◌∷◌, some, slice}
use vmars.Prelude.Text.{codes}
use vmars.Counters.{increment}
use vmars.Search.{boyermoore_search}
use vmars.Fix.Process.{Context, strncpy}
use vmars.Fix.Fragments.{Ipv4Stream, Fragment, get_fragment, put_fragment}
use vmars.Fix.Extract.{
  first_message, handle_leading, message_loop, keep_rest, vmars_extract_fix_messages,
}
use vmars.Fix.Bytes.{bytes_total_of}
use vmars.Fix.Samples.{fragments, context}
use vmars.Packet.Defs.{data_len_of, display, display_all, walk_block}
use vmars.Packet.Samples.{headers, other, start_of_message}
use vmars.Packet.Total.{walk_block-bytes_total}

abbrev walked : Context (List (Ipv4Stream × Fragment))
walked = record context {
  counters = record context.counters { bytes_total = 1 };
  state = some (
      (
        record { saddr = 0; daddr = 0; sport = 80 * 256; dport = 0 },
        record { capacity = 4088; s = codes "8=F" },
      )
      ∷ []);
}

walks : walk_block fragments headers 80 context (other ∷ start_of_message ∷ []) ≡ some walked
unfolding walk_block display_all display data_len_of vmars_extract_fix_messages first_message
    boyermoore_search handle_leading get_fragment put_fragment strncpy slice message_loop keep_rest
walks = refl

walk_block-bytes_total_example : bytes_total_of walked ≡ increment (bytes_total_of context)
walk_block-bytes_total_example =
    walk_block-bytes_total fragments headers 80 context walked (other ∷ start_of_message ∷ []) walks
