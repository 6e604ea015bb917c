-- ===== src/Wire/Research.antt =====
-- src/iag/stellaris/execution/session_proxy.py: the requests that start and stop research.
use imperial_auto_governor.Common.{
  ℕ, ◌+◌, ◌-◌, Bool, true, false, not, ◌&&◌, ◌||◌, Option, none, some, List, [], ◌∷◌, ◌++◌, ltb,
  leb, ◌==◌, if◌then◌else◌, length, take, drop, all,
}
use imperial_auto_governor.Common.Int.{ℤ, pos, eqb_ℤ}
use imperial_auto_governor.Stream.{Bytes, slice, from_little, same_bytes}
use imperial_auto_governor.Wire.{
  value_error, runtime_error, Outcome, done, ◌>>=◌, ◌>>◌, raise_if, to_little, put_bytes,
  value_offset, validate_u32, stamp, is_declared, ascii,
}
use imperial_auto_governor.Wire.Coordinates.{command_trailer}

abbrev pub research_start_family : Bytes
research_start_family = 0x06 ∷ 0x2d ∷ 0x01 ∷ 0x00 ∷ 0x03 ∷ 0x00 ∷ []

abbrev pub research_stop_family : Bytes
research_stop_family = 0x45 ∷ 0x33 ∷ 0x01 ∷ 0x00 ∷ 0x03 ∷ 0x00 ∷ []

abbrev pub research_context_tag : Bytes
research_context_tag = 0x82 ∷ 0x2c ∷ 0x01 ∷ 0x00 ∷ 0x14 ∷ 0x00 ∷ []

abbrev pub research_technology_tag : Bytes
research_technology_tag = 0x07 ∷ 0x2d ∷ 0x01 ∷ 0x00 ∷ 0x0f ∷ 0x00 ∷ []

abbrev pub research_start_record : Bytes
research_start_record =
    0x69 ∷ 0x00 ∷ 0x04 ∷ 0x00 ∷ 0x00 ∷ 0x00 ∷ 0x06 ∷ 0x2d ∷ 0x01 ∷ 0x00 ∷ 0x03 ∷ 0x00 ∷ 0xf3 ∷ 0x01
    ∷ 0x01 ∷ 0x00 ∷ 0x03 ∷ 0x00 ∷ 0x40 ∷ 0x02 ∷ 0x01 ∷ 0x00 ∷ 0x0c ∷ 0x00 ∷ 0x02 ∷ 0x00 ∷ 0x00
    ∷ 0x00 ∷ 0xc7 ∷ 0x00 ∷ 0x01 ∷ 0x00 ∷ 0x0c ∷ 0x00 ∷ 0xff ∷ 0x7f ∷ 0x00 ∷ 0x00 ∷ 0xcc ∷ 0x00
    ∷ 0x01 ∷ 0x00 ∷ 0x0e ∷ 0x00 ∷ 0x00 ∷ 0x13 ∷ 0x04 ∷ 0x01 ∷ 0x00 ∷ 0x0e ∷ 0x00 ∷ 0x00 ∷ 0xdb
    ∷ 0x00 ∷ 0x01 ∷ 0x00 ∷ 0x14 ∷ 0x00 ∷ 0x11 ∷ 0x00 ∷ 0x00 ∷ 0x00 ∷ 0x04 ∷ 0x00 ∷ 0x41 ∷ 0x00
    ∷ 0x01 ∷ 0x00 ∷ 0x03 ∷ 0x00 ∷ 0x82 ∷ 0x2c ∷ 0x01 ∷ 0x00 ∷ 0x14 ∷ 0x00 ∷ 0x00 ∷ 0x00 ∷ 0x00
    ∷ 0x00 ∷ 0x07 ∷ 0x2d ∷ 0x01 ∷ 0x00 ∷ 0x0f ∷ 0x00 ∷ 0x0e ∷ 0x00 ∷ 0x74 ∷ 0x65 ∷ 0x63 ∷ 0x68
    ∷ 0x5f ∷ 0x73 ∷ 0x68 ∷ 0x69 ∷ 0x65 ∷ 0x6c ∷ 0x64 ∷ 0x73 ∷ 0x5f ∷ 0x32 ∷ 0x04 ∷ 0x00 ∷ 0x04
    ∷ 0x00 ∷ []

pub data ResearchAction : Type 0 where
  start_research stop_research : ResearchAction

pub record ResearchTarget : Type 0 where
  pub context : ℤ
  pub technology : List ℕ

abbrev pub same_research : ResearchTarget → ResearchTarget → Bool
same_research a b = eqb_ℤ a.context b.context && same_bytes a.technology b.technology

-- `[A-Za-z0-9_.-]`
abbrev pub is_technology_char : ℕ → Bool
is_technology_char c =
    (leb 65 c && leb c 90)
    || ((leb 97 c && leb c 122) || ((leb 48 c && leb c 57) || (c == 95 || (c == 46 || c == 45))))

-- TECHNOLOGY_ID_RE.fullmatch
unfoldable pub is_technology_id : List ℕ → Bool
is_technology_id id = leb 1 (length id) && all is_technology_char id

abbrev pub family_of : ResearchAction → Bytes
family_of start_research = research_start_family
family_of stop_research = research_stop_family

-- `_research_action`
unfoldable pub research_action : Bytes → Option ResearchAction
unfolding same_bytes
research_action bytes =
    if same_bytes (slice 6 12 bytes) research_start_family
    then some start_research
    else if same_bytes (slice 6 12 bytes) research_stop_family
    then some stop_research
    else none

abbrev pub is_action : ResearchAction → Option ResearchAction → Bool
is_action a none = false
is_action start_research (some b) = elim b [ start_research ↦ true | stop_research ↦ false ]
is_action stop_research (some b) = elim b [ start_research ↦ false | stop_research ↦ true ]

-- The technology whose length stands at an offset, at the end of the record.
unfoldable pub technology_at : Bytes → ℕ → Outcome (List ℕ)
unfolding from_little ascii is_technology_id
technology_at bytes o = do
  raise_if (not (o + 2 + from_little (slice o (o + 2) bytes) + 4 == length bytes)) value_error
  id ← ascii (slice (o + 2) (o + 2 + from_little (slice o (o + 2) bytes)) bytes)
  raise_if (not (is_technology_id id)) value_error
  done id

unfoldable pub read_research : Bytes → Outcome (Option ResearchTarget)
unfolding is_declared same_bytes value_offset technology_at from_little
read_research bytes = do
  raise_if (not (is_declared bytes)) value_error
  raise_if (not (same_bytes (drop (length bytes - 4) bytes) command_trailer)) value_error
  context ← value_offset research_context_tag 4 bytes
  o ← value_offset research_technology_tag 2 bytes
  id ← technology_at bytes o
  done (
      some (record {
        context = pos (from_little (slice context (context + 4) bytes));
        technology = id;
      }))

abbrev pub is_known : Option ResearchAction → Bool
is_known none = false
is_known (some a) = true

-- `_parse_research_target`
unfoldable pub parse_research : Bytes → Outcome (Option ResearchTarget)
unfolding research_action read_research
parse_research bytes =
    if ltb (length bytes) 92 || not (is_known (research_action bytes))
    then done none
    else read_research bytes

unfoldable pub is_research : ResearchTarget → Option ResearchTarget → Bool
is_research target none = false
is_research target (some t) = same_research t target

unfoldable pub checked_research : ResearchAction → ResearchTarget → Bytes → Outcome Bytes
unfolding research_action parse_research is_research
checked_research action target bytes = do
  raise_if (not (is_action action (research_action bytes))) runtime_error
  found ← parse_research bytes
  raise_if (not (is_research target found)) runtime_error
  done bytes

-- The fixture with the technology and the family, and with its declared length.
unfoldable pub research_bytes : ResearchAction → Bytes → Bytes
unfolding to_little put_bytes
research_bytes action technology =
    let bytes =
      take 86 research_start_record
      ++ (to_little 2 (length technology) ++ (technology ++ command_trailer)) in
    put_bytes 0 (to_little 2 (length bytes - 1)) (put_bytes 6 (family_of action) bytes)

-- The writes into the fixture and the checks of the record that is returned.
unfoldable pub filled_research : ResearchAction → ℤ → ℤ → ℤ → ResearchTarget → Bytes → Outcome Bytes
unfolding value_offset stamp validate_u32 put_bytes to_little checked_research
filled_research action serial actor origin target bytes = do
  context_at ← value_offset research_context_tag 4 bytes
  stamped ← stamp serial actor origin bytes
  context ← validate_u32 target.context
  checked_research action target (put_bytes context_at (to_little 4 context) stamped)

-- `build_research_record`
unfoldable pub build_research_record : ResearchAction → ℤ → ℤ → ℤ → ResearchTarget → Outcome Bytes
unfolding is_technology_id ascii research_bytes filled_research
build_research_record action serial actor origin target = do
  raise_if (ltb 160 (length target.technology) || not (is_technology_id target.technology))
      value_error
  technology ← ascii target.technology
  filled_research action serial actor origin target (research_bytes action technology)
