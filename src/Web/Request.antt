-- ===== src/Web/Request.antt =====
-- src/web/WebServer.cpp: `handleClient` and the helpers that read a request; `urlDecode` and `parseForm` of
-- src/utils/Util.cpp. What `recv` delivers is a list of chunks, which ends where the client stops.
pub mod Form
use monk_skud_unex.Base.{
  ℕ, ◌+◌, ◌-◌, ◌*◌, ◌%◌, List, [], ◌∷◌, ◌++◌, Bool, true, false, ◌&&◌, ◌||◌, not, Text, Option,
  none, some, ℤ, pos, negsuc, ltb, leb, ◌==◌, if◌then◌else◌, is_empty, length, reverse, take, drop,
  any, codes, bytes_eq,
}
use monk_skud_unex.Base.Map.{lookup, insert, text_eq}
use monk_skud_unex.Text.{trim, split, cut, is_space}
use monk_skud_unex.Text.Number.{to_string, is_xdigit, value}
use monk_skud_unex.Text.Int.{stoi, stoull}
use monk_skud_unex.Text.Card.{parse_card_id, format_card_id}
use monk_skud_unex.Text.Csv.{lines}
use monk_skud_unex.Config.{to_lower}

-- `std::stoi(text, nullptr, 16)` of two characters, as a byte: a space and a sign are skipped, and what
-- is behind the last digit is not read.
unfoldable pub hex_pair : ℕ → ℕ → Option ℕ
hex_pair a b =
    if is_xdigit a
    then some (if is_xdigit b then value 16 0 (a ∷ b ∷ []) else value 16 0 (a ∷ []))
    else if not (is_xdigit b)
    then none
    else if is_space a || a == b'+'
    then some (value 16 0 (b ∷ []))
    else if a == b'-'
    then some ((256 - value 16 0 (b ∷ [])) % 256)
    else none

-- The byte of a `%` and the two characters behind it.
unfoldable pub escaped : ℕ → ℕ → ℕ → Option ℕ
unfolding hex_pair
escaped c a b = if c == b'%' then hex_pair a b else none

abbrev plus_to_space : ℕ → ℕ
plus_to_space c = if c == b'+' then 32 else c

-- A `%` with two characters behind it that are no number stays.
unfoldable pub url_decode : Text → Text
unfolding escaped
url_decode [] = []
url_decode (c ∷ []) = plus_to_space c ∷ []
url_decode (c ∷ a ∷ []) = plus_to_space c ∷ plus_to_space a ∷ []
url_decode (c ∷ a ∷ b ∷ s) = elim (escaped c a b) [
  | none ↦ plus_to_space c ∷ url_decode (a ∷ b ∷ s)
  | some v ↦ v ∷ url_decode s
]

abbrev pub Form : Type 0
Form = List (Text × Text)

-- One part of a form; without a `=` its value is empty.
unfoldable pub form_entry : Text → Text × Text
unfolding url_decode
form_entry part = elim (cut (λ (c : ℕ). c == b'=') part) [
  | none ↦ (url_decode part, [])
  | some (k, v) ↦ (url_decode k, url_decode v)
]

unfoldable pub form_loop : Form → List Text → Form
unfolding form_entry
form_loop m [] = m
form_loop m (part ∷ parts) = let e = form_entry part in form_loop (insert e.0 e.1 m) parts

unfoldable pub parse_form : Text → Form
unfolding form_loop
parse_form body = form_loop [] (split body b'&')

-- `f[key]`.
abbrev pub text_of : Option Text → Text
text_of none = []
text_of (some v) = v

unfoldable pub field : Text → Form → Text
field key f = text_of (lookup key f)

abbrev pub is_set : Text → Form → Bool
is_set key f = bytes_eq (field key f) (codes "1")

-- `try { v = std::stoi(…) } catch (…) {}` with the value before it.
unfoldable pub int_or : ℤ → Text → ℤ
int_or default s = elim (stoi s) [ none ↦ default | some z ↦ z ]

-- The id of a job, which is 0 where it cannot be read.
unfoldable pub job_id : Form → ℕ
job_id f = elim (stoull (field (codes "job_id") f)) [ none ↦ 0 | some n ↦ n ]

unfoldable pub add_int : Option ℤ → List ℕ → List ℕ
add_int none out = out
add_int (some (negsuc n)) out = out
add_int (some (pos n)) out = if leb n 0 || any (λ (k : ℕ). k == n) out then out else out ++ n ∷ []

unfoldable pub int_list_loop : List Text → List ℕ → List ℕ
unfolding add_int
int_list_loop [] out = out
int_list_loop (part ∷ parts) out = int_list_loop parts (add_int (stoi (trim part)) out)

-- The different positive numbers of a list with commas.
unfoldable pub parse_int_list : Text → List ℕ
unfolding int_list_loop
parse_int_list s = int_list_loop (split s b',') []

unfoldable pub commas : Text → Text
commas [] = []
commas (c ∷ s) = (if c == b'|' then b',' else c) ∷ commas s

unfoldable pub card_list_loop : List Text → List Text → Option (List Text)
card_list_loop [] out = some out
card_list_loop (part ∷ parts) out = elim (is_empty (trim part)) [
  | true ↦ card_list_loop parts out
  | false ↦ elim (parse_card_id (trim part)) [
    | none ↦ none
    | some (series, number) ↦
        let card = format_card_id series number in
        card_list_loop parts (if any (bytes_eq card) out then out else out ++ card ∷ [])
  ]
]

-- The different cards of a list, or none where one of them is no card.
unfoldable pub parse_card_list : Text → Option (List Text)
unfolding commas card_list_loop
parse_card_list s = card_list_loop (split (commas s) b',') []

pub record Req : Type 0 where
  pub method : Text
  pub path : Text
  pub query : Text
  pub body : Text
  pub headers : List (Text × Text)

-- A line without the return character at its end.
unfoldable pub chomp : Text → Text
chomp line = elim (reverse line) [ [] ↦ [] | c ∷ rest ↦ if c == 13 then reverse rest else line ]

-- What `>>` reads: the next word, and what is behind it.
unfoldable pub next_word : Text → Text × Text
next_word [] = ([], [])
next_word (c ∷ s) = if is_space c then ([], c ∷ s) else let r = next_word s in (c ∷ r.0, r.1)

unfoldable pub header_lines : List (Text × Text) → List Text → List (Text × Text)
unfolding chomp
header_lines m [] = m
header_lines m (l ∷ ls) = elim (cut (λ (c : ℕ). c == b':') (chomp l)) [
  | none ↦ header_lines m ls
  | some (name, v) ↦ header_lines (insert (to_lower (trim name)) (trim v) m) ls
]

unfoldable pub parse_head : Text → Option Req
unfolding next_word header_lines chomp
parse_head head = elim (lines head) [
  | [] ↦ none
  | first ∷ rest ↦
      let method = next_word (trim (chomp first)) in
      let target = (next_word (trim method.1)).0 in
      let headers = header_lines [] rest in
      elim (cut (λ (c : ℕ). c == b'?') target) [
        | none ↦
            some (record {
              method = method.0;
              path = target;
              query = [];
              body = [];
              headers = headers;
            })
        | some (path, query) ↦
            some (record {
              method = method.0;
              path = path;
              query = query;
              body = [];
              headers = headers;
            })
      ]
]

-- What stands before and behind the first empty line.
unfoldable pub cut_head : Text → Option (Text × Text)
cut_head [] = none
cut_head (c ∷ s) =
    let rest = cut_head s in
    if bytes_eq (take 4 (c ∷ s)) (13 ∷ 10 ∷ 13 ∷ 10 ∷ [])
    then some ([], drop 4 (c ∷ s))
    else elim rest [ none ↦ none | some (a, b) ↦ some (c ∷ a, b) ]

-- Chunks up to an empty line, or to 65536 bytes. There, with no empty line, `hp + 4` wraps around to 3.
unfoldable pub receive_head : Text → List Text → Option (Text × Text × List Text)
unfolding cut_head
receive_head data' [] = elim (cut_head data') [
  | some (head, body) ↦ some (head, body, [])
  | none ↦ if ltb (length data') 65536 then none else some (data', drop 3 data', [])
]
receive_head data' (c ∷ cs) = elim (cut_head data') [
  | some (head, body) ↦ some (head, body, c ∷ cs)
  | none ↦ elim (ltb (length data') 65536) [
    | false ↦ some (data', drop 3 data', c ∷ cs)
    | true ↦ receive_head (data' ++ c) cs
  ]
]

-- Chunks up to the length that the head names, or to the end.
unfoldable pub receive_body : ℕ → Text → List Text → Text
receive_body wanted body [] = take wanted body
receive_body wanted body (c ∷ cs) = elim (ltb (length body) wanted) [
  | false ↦ take wanted body
  | true ↦ receive_body wanted (body ++ c) cs
]

unfoldable pub content_length : Req → ℕ
content_length r = elim (stoull (text_of (lookup (codes "content-length") r.headers))) [
  | none ↦ 0
  | some n ↦ n
]

unfoldable pub read_request : List Text → Option Req
unfolding receive_head receive_body content_length parse_head
read_request chunks = elim (receive_head [] chunks) [
  | none ↦ none
  | some (head, body, rest) ↦ elim (parse_head head) [
    | none ↦ none
    | some r ↦ some (record r { body = receive_body (content_length r) body rest })
  ]
]

unfoldable pub cookie_loop : Text → List Text → Text
cookie_loop name [] = []
cookie_loop name (p ∷ ps) = elim (cut (λ (c : ℕ). c == b'=') p) [
  | none ↦ cookie_loop name ps
  | some (k, v) ↦ elim (bytes_eq (trim k) name) [ true ↦ trim v | false ↦ cookie_loop name ps ]
]

unfoldable pub cookie : Text → Req → Text
unfolding cookie_loop
cookie name r = elim (lookup (codes "cookie") r.headers) [
  | none ↦ []
  | some line ↦ cookie_loop name (split line b';')
]

abbrev reason : ℕ → Text
reason code =
    if code == 200
    then codes "OK"
    else if code == 302
    then codes "Found"
    else if code == 401
    then codes "Unauthorized"
    else if code == 404
    then codes "Not Found"
    else codes "Bad Request"

unfoldable pub header_text : List (Text × Text) → Text
header_text [] = []
header_text ((name, v) ∷ hs) = name ++ (codes ": " ++ (v ++ (13 ∷ 10 ∷ header_text hs)))

-- What is sent for a response.
unfoldable pub response_text : ℕ → Text → List (Text × Text) → Text → Text
unfolding header_text
response_text code type headers body =
    codes "HTTP/1.1 "
    ++ (to_string code
        ++ (b' '
            ∷ (reason code
                ++ (codes "\r\nContent-Type: "
                    ++ (type
                        ++ (codes "\r\nContent-Length: "
                            ++ (to_string (length body)
                                ++ (codes "\r\nConnection: close\r\n"
                                    ++ (header_text headers ++ (13 ∷ 10 ∷ body))))))))))
