-- ===== src/Fec/Examples.antt =====
-- A segment of five bytes in three symbols of two bytes, of which one is lost
-- (src/core/segment-encoder.ts and src/core/segment-decoder.ts).
use deqr.Common.{
  zero, suc, ◌<◌, ◌⊎◌, ℕ, ◌≤◌, ◌≡◌, ◌==◌, refl, arith, List, [], ◌∷◌, none, some, true, false, Bool,
}
use deqr.Protocol.Buffer.{zeros, write}
use deqr.Fec.Symbols.{xor_into, block_at}
use deqr.Fec.Equations.{insert, delete, swap_remove}
use deqr.Fec.Symbols.Laws.{xor_of}
use deqr.Fec.Equations.Laws.{count}
use deqr.Fec.Encoder.{
  SegmentEncoder, new_encoder, load_segment, symbol_into, xor_source_symbols, copy_source_symbol,
}
use deqr.Fec.Encoder.Symbols.{sent_block, length-sent_block, xor_source_symbols-eq}
use deqr.Fec.Decoder.{SegmentDecoder, ripple, is_set, set_bit}
use deqr.Fec.Decoder.Sound.{IsSound}
use deqr.Fec.Decoder.Loop.{IsDone, ripple-IsDone}
use deqr.Fec.Decoder.Accept.{
  default_limits, empty_decoder, new_decoder, accept, place_source, segment, held_bytes,
}
use deqr.Fec.Decoder.Accept.Safety.{place_source-IsSound, accept-IsSound}
use deqr.Fec.Decoder.Accept.{release, detach}
use deqr.Fec.Detach.{detached_once}
use deqr.Fec.Recovery.{ids, recovered}
use deqr.Fec.Delivery.{AreSent, accept_all, empty_decoder-IsSound, delivered}

abbrev message : List ℕ
message = 10 ∷ 20 ∷ 30 ∷ 40 ∷ 50 ∷ []

-- A rule that names two symbols, and all three for an odd number.
abbrev pick : Bool → List ℕ
pick true = 0 ∷ 1 ∷ 2 ∷ []
pick false = 1 ∷ 2 ∷ []

abbrev rule : ℕ → ℕ → List ℕ
rule id k = pick (id == 5)

count_pair : (n : ℕ) → count (1 ∷ 2 ∷ []) n ≤ 1
unfolding count
count_pair n = ground arith

count_three : (n : ℕ) → count (0 ∷ 1 ∷ 2 ∷ []) n ≤ 1
unfolding count
count_three n = ground arith

pick-distinct : (b : Bool) (n : ℕ) → count (pick b) n ≤ 1
pick-distinct true n = count_three n
pick-distinct false n = count_pair n

abbrev fresh : SegmentEncoder
fresh = record { segment = none; symbols = 0; symbol_size_bytes = 2 }

abbrev encoder : SegmentEncoder
encoder = record { segment = some message; symbols = 3; symbol_size_bytes = 2 }

abbrev start : SegmentDecoder
start = empty_decoder 3 2 5 (default_limits 3)

opened : new_decoder 3 2 5 (default_limits 3) ≡ some start
unfolding new_decoder
opened = refl

made : new_encoder 2 ≡ some fresh
unfolding new_encoder
made = refl

held : load_segment fresh message ≡ some encoder
unfolding load_segment
held = refl

-- Symbols 0 and 1 are lost, and the repair symbols 5 and 4 make up for them. One arrives twice.
abbrev arrived : List (ℕ × List ℕ)
arrived = (5, 38 ∷ 60 ∷ []) ∷ (4, 44 ∷ 40 ∷ []) ∷ (4, 44 ∷ 40 ∷ []) ∷ (2, 50 ∷ 0 ∷ []) ∷ []

arrived_sent :
    (symbol_into rule encoder 5 (zeros 2) ≡ some (38 ∷ 60 ∷ []))
    × (symbol_into rule encoder 4 (zeros 2) ≡ some (44 ∷ 40 ∷ []))
    × (symbol_into rule encoder 2 (zeros 2) ≡ some (50 ∷ 0 ∷ []))
unfolding symbol_into
arrived_sent = (refl, refl, refl)

arrived_recovered : segment (accept_all rule start arrived) ≡ some message
unfolding segment accept_all default_limits is_set insert swap_remove set_bit delete write xor_into
    block_at
arrived_recovered = refl

delivered_example :
    (segment (accept_all rule start arrived) ≡ none)
    ⊎ (segment (accept_all rule start arrived) ≡ some message)
delivered_example =
    delivered message 2 rule (λ id n. pick-distinct (id == 5) n) (default_limits 3) arrived made
      held opened (arrived_sent.0, (arrived_sent.1, (arrived_sent.1, (arrived_sent.2, tt))))

abbrev sent : ℕ → List ℕ
sent = sent_block message 2

source_two : 50 ∷ 0 ∷ [] ≡ sent 2
unfolding copy_source_symbol
source_two = refl

repair_four : 44 ∷ 40 ∷ [] ≡ xor_of 2 sent (1 ∷ 2 ∷ [])
unfolding xor_into copy_source_symbol
repair_four = refl

start-IsSound : IsSound 3 2 5 sent start
start-IsSound = empty_decoder-IsSound message 2 (default_limits 3)

-- The decoder that has stored the equation of symbol 4.
abbrev one_stored : SegmentDecoder
one_stored = (accept rule start 4 (44 ∷ 40 ∷ [])).0

accept-IsSound_example : IsSound 3 2 5 sent one_stored
accept-IsSound_example =
    accept-IsSound 3 2 5 sent (length-sent_block message 2) rule (λ id n. pick-distinct (id == 5) n)
      start 4 (44 ∷ 40 ∷ []) start-IsSound (λ lt. absurd (omega arith)) (λ ge. repair_four)

one_stored-IsSound : IsSound 3 2 5 sent one_stored
one_stored-IsSound =
    accept-IsSound 3 2 5 sent (length-sent_block message 2) rule (λ id n. pick-distinct (id == 5) n)
      start 4 (44 ∷ 40 ∷ []) start-IsSound (λ lt. absurd (omega arith)) (λ ge. repair_four)

-- The symbol that resolves it is placed.
abbrev placed : SegmentDecoder
placed = place_source one_stored 2 (50 ∷ 0 ∷ [])

placed-IsSound : IsSound 3 2 5 sent placed
unfolding accept is_set default_limits
placed-IsSound =
    place_source-IsSound 3 2 5 sent (length-sent_block message 2) one_stored 2 (50 ∷ 0 ∷ [])
      one_stored-IsSound (omega arith) source_two refl

ripple-IsDone_example : IsDone 3 2 5 sent (length-sent_block message 2) placed (ripple placed 2)
unfolding place_source accept is_set default_limits set_bit
ripple-IsDone_example =
    ripple-IsDone 3 2 5 sent (length-sent_block message 2) placed 2 placed-IsSound (omega arith)
      refl

xor_source_symbols-eq_example :
    xor_source_symbols message 2 (1 ∷ 2 ∷ []) (zeros 2)
    ≡ xor_into (zeros 2) (xor_of 2 sent (1 ∷ 2 ∷ []))
xor_source_symbols-eq_example = xor_source_symbols-eq message 2 (1 ∷ 2 ∷ []) (zeros 2) refl

-- The decoder with everything that arrived, which hands out the message once.
abbrev finished : SegmentDecoder
finished = accept_all rule start arrived

finished_detached : detach finished ≡ some (release finished, message)
unfolding detach segment accept_all default_limits is_set insert swap_remove set_bit delete write
    xor_into block_at
finished_detached = refl

-- Two symbols that come too late, one of them damaged.
abbrev late : List (ℕ × List ℕ)
late = (0, 10 ∷ 20 ∷ []) ∷ (7, 1 ∷ 2 ∷ []) ∷ []

detached_once_example :
    (message ≡ message)
    × (accept_all rule (release finished) late ≡ release finished)
    × (held_bytes (accept_all rule (release finished) late) ≡ 1)
    × (segment (accept_all rule (release finished) late) ≡ none)
    × (detach (accept_all rule (release finished) late) ≡ none)
detached_once_example =
    detached_once message 2 rule (λ id n. pick-distinct (id == 5) n) (default_limits 3) arrived late
      made held opened (arrived_sent.0, (arrived_sent.1, (arrived_sent.1, (arrived_sent.2, tt))))
      finished_detached

-- Every source symbol, with a repair symbol in between.
abbrev all_sources : List (ℕ × List ℕ)
all_sources = (2, 50 ∷ 0 ∷ []) ∷ (0, 10 ∷ 20 ∷ []) ∷ (4, 44 ∷ 40 ∷ []) ∷ (1, 30 ∷ 40 ∷ []) ∷ []

all_sources_sent : AreSent message 2 rule (λ id n. pick-distinct (id == 5) n) encoder all_sources
unfolding symbol_into
all_sources_sent = (refl, (refl, (refl, (refl, tt))))

all_sources_there : (i : ℕ) → i < 3 → 1 ≤ count (ids all_sources) i
unfolding count
all_sources_there zero h = omega arith
all_sources_there (suc zero) h = omega arith
all_sources_there (suc (suc zero)) h = omega arith
all_sources_there (suc (suc (suc i))) h = absurd (omega arith)

recovered_example : segment (accept_all rule start all_sources) ≡ some message
recovered_example =
    recovered message 2 rule (λ id n. pick-distinct (id == 5) n) (default_limits 3) all_sources made
      held opened all_sources_sent all_sources_there
