-- ===== src/Watcher/Topics.antt =====
-- crates/watcher/src/evm.rs: addresses of 20 bytes as the topics of 32 bytes that a log indexes them
-- by, and back. Texts are ASCII.
pub mod Roundtrip
use naivolt.Base.{
  ◌+◌, ◌-◌, ltb, ◌==◌, ◌&&◌, List, [], ◌∷◌, ◌++◌, length, replicate, drop, if◌then◌else◌,
}
use naivolt.Base.Text.{Text, codes, to_lower}

-- `trim_start_matches("0x")`, which takes off every leading "0x".
unfoldable pub trim_start_0x : Text → Text
trim_start_0x [] = []
trim_start_0x (c ∷ []) = c ∷ []
trim_start_0x (c ∷ d ∷ cs) =
    let rest = trim_start_0x cs in if (c == b'0') && (d == b'x') then rest else c ∷ d ∷ cs

unfoldable pub address_to_topic : Text → Text
address_to_topic address =
    let clean = to_lower (trim_start_0x address) in
    codes "0x" ++ (replicate (64 - length clean) b'0' ++ clean)

unfoldable pub topic_to_address : Text → Text
topic_to_address topic =
    let clean = trim_start_0x topic in
    if ltb (length clean) 40
    then codes "0x" ++ clean
    else codes "0x" ++ to_lower (drop (length clean - 40) clean)
