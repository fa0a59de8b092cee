-- ===== src/Arc/Redact.antt =====
-- internal/arc/arc.go: `sanitizeErr`, which looks for each of three prefixes once, in any case of the letters.
use aztunnel.Common.{
  ◌+◌, Option, none, some, List, [], ◌∷◌, ◌++◌, length, take, drop, ◌==◌, if◌then◌else◌,
}
use aztunnel.Common.Text.{Bytes, codes}
use aztunnel.Common.Search.{find, from_any}
use aztunnel.Relay.Redact.{redacted}

-- A prefix and the bytes that end a value behind it.
pub record Redaction : Type 0 where
  pub prefix_text : Bytes
  pub delimiters : Bytes

unfoldable pub patterns : List Redaction
patterns =
    record { prefix_text = codes "sb-hc-token="; delimiters = codes "&\" \n" }
    ∷ record { prefix_text = codes "Servicebusauthorization:"; delimiters = codes "\"\n" }
    ∷ record { prefix_text = codes "Service-Configuration-Token:"; delimiters = codes "\"\n" }
    ∷ []

-- The loop that skips the spaces behind a prefix.
unfoldable pub skip_spaces : Bytes → Bytes
skip_spaces [] = []
skip_spaces (c ∷ s) = if c == b' ' then skip_spaces s else c ∷ s

abbrev at_index : Redaction → Bytes → Option (Bytes × Bytes) → Bytes
at_index p s none = s
at_index p s (some (before, after)) =
    let idx = length before in
    let value = skip_spaces (drop (idx + length p.prefix_text) s) in
    take idx s ++ (p.prefix_text ++ (redacted ++ from_any p.delimiters value))

-- A round of the loop, with `strings.ToLower`. The index in the lowered text cuts the text itself.
unfoldable pub redact_once : (to_lower : Bytes → Bytes) → Redaction → Bytes → Bytes
redact_once to_lower p s = at_index p s (find (to_lower p.prefix_text) (to_lower s))

unfoldable pub redact_all : (to_lower : Bytes → Bytes) → List Redaction → Bytes → Bytes
redact_all to_lower [] s = s
redact_all to_lower (p ∷ ps) s = redact_all to_lower ps (redact_once to_lower p s)

-- The text of the error that `sanitizeErr` returns.
unfoldable pub sanitize_err : (to_lower : Bytes → Bytes) → Bytes → Bytes
unfolding patterns
sanitize_err to_lower s = redact_all to_lower patterns s
