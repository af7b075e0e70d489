-- ===== src/Output/Channel.antt =====
-- The channels of output.h and what is known of each.
use Prim.Native.Char.{code}
use Prim.Native.String.{String}
use libmandrews.Prelude.{ℕ, ◌≡◌, refl, Option, none, some, List, [], ◌∷◌, ◌==◌, if◌then◌else◌}

-- A text as the numbers of its characters.
abbrev pub codes : String → List ℕ
codes String.[] = []
codes (String.◌∷◌ c s) = code c ∷ codes s

abbrev pub escape : ℕ
escape = 27

pub data Channel : Type 0 where
  out err ftl brk dbg dmy buf : Channel

-- The value of the enumeration.
abbrev pub value : Channel → ℕ
value out = 0
value err = 1
value ftl = 2
value brk = 3
value dbg = 4
value dmy = 5
value buf = 6

-- `std::cout`, `std::cerr`, the two streams of output.h, and any other.
pub data Stream : Type 0 where
  cout cerr cnul cftl : Stream
  other : ℕ → Stream

pub record ChannelMetadata : Type 0 where
  pub channel : Channel
  pub os : Stream
  pub color : List ℕ

abbrev entry : Channel → Stream → String → ChannelMetadata
entry c os color = record { channel = c; os = os; color = escape ∷ codes color }

abbrev pub channel_map : List ChannelMetadata
channel_map =
    entry out cout "[1;35m"
    ∷ entry err cerr "[1;31m"
    ∷ entry ftl cerr "[1;31m"
    ∷ entry brk cerr "[1;31m"
    ∷ entry dbg cerr "[1;35m"
    ∷ entry dmy cnul "[0;35m"
    ∷ entry buf cftl "[0;34m"
    ∷ []

-- `none` is a read past the end of the map.
unfoldable pub channel_metadata : Channel → List ChannelMetadata → Option ChannelMetadata
channel_metadata c [] = none
channel_metadata c (m ∷ map) = if value c == value m.channel then some m else channel_metadata c map

abbrev pub os_of : Option ChannelMetadata → Stream
os_of none = cnul
os_of (some m) = m.os

abbrev pub color_of : Option ChannelMetadata → List ℕ
color_of none = []
color_of (some m) = m.color

unfoldable pub channel_stream : Channel → Stream
unfolding channel_metadata
channel_stream c = os_of (channel_metadata c channel_map)

unfoldable pub channel_color : Channel → List ℕ
unfolding channel_metadata
channel_color c = color_of (channel_metadata c channel_map)

-- The search of the map ends at the entry of the channel: no channel reads past the end.
pub channel_metadata-found :
    (c : Channel)
    → (m : ChannelMetadata) × (channel_metadata c channel_map ≡ some m) × (m.channel ≡ c)
unfolding channel_metadata
channel_metadata-found out = (_, refl, refl)
channel_metadata-found err = (_, refl, refl)
channel_metadata-found ftl = (_, refl, refl)
channel_metadata-found brk = (_, refl, refl)
channel_metadata-found dbg = (_, refl, refl)
channel_metadata-found dmy = (_, refl, refl)
channel_metadata-found buf = (_, refl, refl)
