-- ===== src/Http.antt =====
-- What of HTTP a download needs: `parse_url`, `parse_ipv4`, `parse_head` and `find` (src/http.rs).
pub mod Connection
pub mod Fetch
pub mod Delivery
pub mod Download
pub mod Ending
pub mod Scripted
pub mod Sinks
mod Tests
use rs_smarthome_nodes.Base.{
  ℕ, ◌+◌, Bool, true, false, ◌&&◌, ◌||◌, Option, none, some, List, [], ◌∷◌, ◌++◌, ◌>>=◌, take,
  length, leb, ◌==◌, if◌then◌else◌,
}
use rs_smarthome_nodes.Base.Bytes.{Bytes}
use rs_smarthome_nodes.Base.Result.{Result, ok, ◌>>?◌, ok_or}
use rs_smarthome_nodes.Base.Text.Decimal.{parse_u8, parse_u16, parse_u32}
use rs_smarthome_nodes.Base.Text.{
  codes, within, from_utf8, strip_prefix, split, split_once, rsplit_once, trim,
}

pub record Url : Type 0 where
  pub ip : List ℕ
  pub port : ℕ
  pub path : Bytes

pub data UrlError : Type 0 where
  not_http not_an_address bad_port : UrlError

-- `find('/')`, and the text cut there.
unfoldable pub path_split : Bytes → Bytes × Bytes
path_split [] = ([], b'/' ∷ [])
path_split (c ∷ cs) =
    let rest = path_split cs in if c == b'/' then ([], c ∷ cs) else (c ∷ rest.0, rest.1)

-- The loop over the parts, with the octets so far.
unfoldable pub octets_from : List ℕ → List Bytes → Option (List ℕ)
octets_from octets [] = if length octets == 4 then some octets else none
octets_from octets (part ∷ parts) =
    if leb 4 (length octets) || length part == 0
    then none
    else do octet ← parse_u8 part; octets_from (octets ++ octet ∷ []) parts

unfoldable pub parse_ipv4 : Bytes → Option (List ℕ)
parse_ipv4 host = octets_from [] (split b'.' host)

abbrev pub host_and_port : Bytes → Option (Bytes × Bytes) → Result UrlError (Bytes × ℕ)
host_and_port authority (some (h, p)) = ok_or (parse_u16 p) bad_port >>? λ port. ok (h, port)
host_and_port authority none = ok (authority, 80)

unfoldable pub parse_url : Bytes → Result UrlError Url
parse_url url = ok_or (strip_prefix (codes "http://") url) not_http >>? λ rest.
    let (authority, path) = path_split rest in
    host_and_port authority (rsplit_once b':' authority) >>? λ hp.
    ok_or (parse_ipv4 (hp.0)) not_an_address >>? λ ip.
    ok record { ip = ip; port = hp.1; path = path }

pub record Head : Type 0 where
  pub status : ℕ
  pub content_length : Option ℕ
  pub body_at : ℕ

-- The needle at the front.
unfoldable pub starts_with : Bytes → Bytes → Bool
starts_with [] s = true
starts_with (n ∷ ns) [] = false
starts_with (n ∷ ns) (c ∷ cs) = n == c && starts_with ns cs

-- The windows from the one at `at` on, none of which reaches past the end.
unfoldable pub find_from : ℕ → Bytes → Bytes → Option ℕ
find_from at [] needle = none
find_from at (c ∷ cs) needle =
    let later = find_from (at + 1) cs needle in
    if starts_with needle (c ∷ cs) then some at else later

unfoldable pub find : Bytes → Bytes → Option ℕ
find haystack needle = find_from 0 haystack needle

unfoldable pub onto_first : ℕ → List Bytes → List Bytes
onto_first c [] = []
onto_first c (line ∷ lines) = (c ∷ line) ∷ lines

-- `split("\r\n")`
unfoldable pub split_lines : Bytes → List Bytes
unfolding onto_first
split_lines [] = [] ∷ []
split_lines (c ∷ []) = (c ∷ []) ∷ []
split_lines (c ∷ d ∷ rest) =
    let behind = split_lines rest in
    let within_line = onto_first c (split_lines (d ∷ rest)) in
    if c == 13 && d == 10 then [] ∷ behind else within_line

abbrev pub lower : ℕ → ℕ
lower c = if within b'A' b'Z' c then c + 32 else c

unfoldable pub eq_ignore_ascii_case : Bytes → Bytes → Bool
eq_ignore_ascii_case [] [] = true
eq_ignore_ascii_case (x ∷ xs) (y ∷ ys) = lower x == lower y && eq_ignore_ascii_case xs ys
eq_ignore_ascii_case _ _ = false

abbrev pub header_length : Option (Bytes × Bytes) → Option ℕ → Option ℕ
header_length none so_far = so_far
header_length (some (name, value)) so_far =
    if eq_ignore_ascii_case name (codes "content-length") then parse_u32 (trim value) else so_far

-- The loop over the header lines; the last `content-length` counts.
unfoldable pub content_length_of : Option ℕ → List Bytes → Option ℕ
content_length_of so_far [] = so_far
content_length_of so_far (line ∷ lines) =
    content_length_of (header_length (split_once b':' line) so_far) lines

abbrev pub status_of : List Bytes → Option ℕ
status_of (version ∷ status ∷ rest) =
    if starts_with (codes "HTTP/1.") version then parse_u16 status else none
status_of _ = none

abbrev pub head_of : ℕ → List Bytes → Option Head
head_of end [] = none
head_of end (status_line ∷ lines) = do
  status ← status_of (split b' ' status_line)
  some record { status = status; content_length = content_length_of none lines; body_at = end + 4 }

unfoldable pub parse_head : Bytes → Option Head
parse_head buf = do
  end ← find buf (13 ∷ 10 ∷ 13 ∷ 10 ∷ [])
  head ← from_utf8 (take end buf)
  head_of end (split_lines head)
