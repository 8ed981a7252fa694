-- ===== src/Tests/Filtering.antt =====
-- The filters of rinja/src/filters on small values.
use rinja.Base.{none, All, some, List, [], ◌∷◌, ◌≡◌, refl, Bytes, codes, ◌>>=◌}
use rinja.Fmt.{push_str, push_str-IsWriter, IsWriter}
use rinja.Filters.Escape.{
  display, concat, html, MaybeSafe, escape_writer, escape_writer-IsWriter, escape_by, write_wrapped,
  rinja_auto_escape, write_wrapped-escape_by,
}
use rinja.Filters.Json
use rinja.Filters.Join.{join, join_fmt, separated, join_fmt-separated}
use rinja.Filters.Json.{json_write, json_write-escape, IsHarmless}
use rinja.Filters.Truncate.{new, truncate_write_str}
use rinja.Filters.Truncate.Boundary.{truncated}
use rinja.Filters.Truncate.Cut.{display-truncated}

-- `a`, the two bytes of an `ä`, and `<b`
abbrev value : List Bytes
value = (b'a' ∷ 195 ∷ 164 ∷ []) ∷ codes "<b" ∷ []

escape_writer-IsWriter_example : IsWriter (escape_writer push_str html)
escape_writer-IsWriter_example = escape_writer-IsWriter push_str-IsWriter html

write_wrapped-escape_by_example :
    (write_wrapped push_str [] (rinja_auto_escape (MaybeSafe.safe value) html)
      ≡ push_str [] (concat value))
    × (write_wrapped push_str [] (rinja_auto_escape (MaybeSafe.needs_escaping value) html)
        ≡ push_str [] (escape_by html (concat value)))
write_wrapped-escape_by_example = write_wrapped-escape_by push_str-IsWriter [] html value

cuts_behind_umlaut :
    (display (truncate_write_str push_str) (new [] 2) value >>= λ t. some t.dest)
    ≡ some (b'a' ∷ 195 ∷ 164 ∷ codes "...")
unfolding display truncate_write_str new
cuts_behind_umlaut = refl

display-truncated_example :
    (display (truncate_write_str push_str) (new [] 2) value >>= λ t. some t.dest)
    ≡ push_str [] (truncated 2 (concat value))
display-truncated_example = display-truncated push_str-IsWriter [] 2 value (refl, (refl, tt))

json_write-escape_example :
    (json_write push_str [] (codes "\"<a>\"")
      ≡ (push_str [] (Json.escape (codes "\"<a>\"")) >>= λ f. some (f, 5)))
    × All IsHarmless (Json.escape (codes "\"<a>\""))
json_write-escape_example = json_write-escape push_str-IsWriter [] (codes "\"<a>\"")

join_fmt-separated_example :
    (join_fmt push_str (join (value ∷ value ∷ []) (codes ", " ∷ [])) []
      ≡ (push_str [] (separated (codes ", " ∷ []) (value ∷ value ∷ [])) >>= λ f. some (f, none)))
    × (join_fmt push_str none [] ≡ some ([], none))
join_fmt-separated_example =
    join_fmt-separated push_str-IsWriter [] (value ∷ value ∷ []) (codes ", " ∷ [])
