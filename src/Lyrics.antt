-- ===== src/Lyrics.antt =====
-- src/lyrics.c: the names of lyrics pages, the text found in a page, and the task that fetches lyrics.
-- The network (`url_fetch`), libcurl's escapes, iconv from UTF-32 and `sscanf` with "%d;" are the
-- fields of `Web`. Texts are bytes without NUL; one that is NULL is printed as glibc does.
pub mod Pages
pub mod Fetched
mod Tests
use mathlib.Core.List.{reverse}
use mathlib.Core.Option
use musicd.Base.{
  ℕ, zero, suc, ◌+◌, ◌-◌, ◌/◌, ◌%◌, ◌^◌, Bool, true, false, ◌&&◌, List, [], ◌∷◌, ◌++◌, Option, none,
  some, ◌==◌, ltb, if◌then◌else◌, Bytes, codes, length, take, drop, peek, tail, is_some, ℤ, pos,
}
use musicd.Strings.Search.{strbeginswith, strstr, strcasestr, strchrnull, strextract}
use musicd.Library.Rows.{TrackRow}
use musicd.Library.Statements.{Query, Db, pure, ◌>>=◌, ◌>>◌}
use musicd.Library.Words.{Lyrics, library_track_by_id, library_lyrics_set}

pub record Web : Type 0 where
  pub url_fetch : Bytes → Option Bytes
  pub curl_escape : Bytes → Bytes
  -- from UTF-32 to UTF-8
  pub string_iconv : Bytes → Bytes
  -- the 32 bits that `sscanf` reads
  pub scan_entity : Bytes → Option ℕ

-- The four bytes of a `uint32_t`, lowest first.
unfoldable pub four_bytes : ℕ → Bytes
four_bytes chr = chr % 256 ∷ chr / 2 ^ 8 % 256 ∷ chr / 2 ^ 16 % 256 ∷ chr / 2 ^ 24 % 256 ∷ []

module _ (web : Web) where
  -- The loop at `p`: `string` and `gap` are as before the test of the gap.
  unfoldable pub parse_entities : Bytes → ℕ → Bytes → Bytes
  unfolding four_bytes
  parse_entities string gap [] = string
  parse_entities string gap (c ∷ p) =
      if ltb 0 (length string) && ltb 48 gap
      then string
      else elim (strbeginswith (c ∷ p) (codes "&#")) as (λ _. Bytes) [
        | true ↦ elim (web.scan_entity (drop 1 p)) as (λ _. Bytes) [
          | none ↦ parse_entities string (suc gap) p
          | some chr ↦ parse_entities (string ++ four_bytes chr) 0 p
        ]
        | false ↦ elim (strbeginswith (c ∷ p) (codes "<br />")) as (λ _. Bytes) [
          | true ↦ parse_entities (string ++ (10 ∷ 0 ∷ 0 ∷ 0 ∷ [])) (suc gap) p
          | false ↦ parse_entities string (suc gap) p
        ]
      ]

  unfoldable pub parse_lyrics_page : Bytes → Option Bytes
  unfolding parse_entities
  parse_lyrics_page page = elim (strstr page (codes "<div class='lyricbox'>")) [
    | none ↦ none
    | some p ↦ some (web.string_iconv (parse_entities [] 0 p))
  ]

  -- `url_escape_location("http://lyrics.wikia.com", page_name)`
  unfoldable pub page_url : Bytes → Bytes
  page_url page_name = codes "http://lyrics.wikia.com" ++ (codes "/" ++ web.curl_escape page_name)

  unfoldable pub handle_lyrics_page : Bytes → Option Lyrics
  unfolding parse_lyrics_page page_url
  handle_lyrics_page page_name = elim (web.url_fetch (page_url page_name)) [
    | none ↦ none
    | some page ↦ elim (parse_lyrics_page page) [
      | none ↦ none
      | some lyrics ↦ some record {
        lyrics = some lyrics;
        provider = some (codes "LyricWiki");
        source = some (page_url page_name);
      }
    ]
  ]

-- The backward loop; `before` is what stands before `p`, last byte first.
unfoldable pub line_start : Bytes → Bytes → Bytes
line_start [] p = p
line_start (c ∷ before) p = if peek p == 10 then p else line_start before (c ∷ p)

-- From the line that `p` stands in: `++p`, and up to the end of the line.
unfoldable pub line_from : Bytes → Bytes → Bytes
unfolding line_start
line_from before p =
    let start = tail (line_start before p) in strextract start (strchrnull start 10)

unfoldable pub find_lyrics_page_name : Bytes → Bytes → Option Bytes
unfolding line_from
find_lyrics_page_name page title =
    let search_title = title ++ codes "\n" in
    let found = elim (strstr page search_title) as (λ _. Option Bytes) [
      | some p ↦ some p
      | none ↦ strcasestr page search_title
    ] in
    elim found [
      | none ↦ none
      | some p ↦ some (line_from (reverse (take (length page - length p) page)) p)
    ]

-- `%s` of a text that is NULL.
abbrev pub shown : Option Bytes → Bytes
shown none = codes "(null)"
shown (some text) = text

module _ (web : Web) where
  -- The last step: the artist's name as the search gives it.
  unfoldable pub fetch_by_found_artist : Bytes → Bytes → Option Lyrics
  unfolding handle_lyrics_page
  fetch_by_found_artist page title = elim (strchrnull page b':') [
    | [] ↦ none
    | c ∷ p ↦ handle_lyrics_page web (strextract page (c ∷ p) ++ (codes ":" ++ title))
  ]

  unfoldable pub fetch_by_search : Bytes → Bytes → Option Lyrics
  unfolding handle_lyrics_page find_lyrics_page_name fetch_by_found_artist
  fetch_by_search page title = elim (find_lyrics_page_name page title) [
    | none ↦ fetch_by_found_artist page title
    | some page_name ↦ elim (handle_lyrics_page web page_name) [
      | some lyrics ↦ some lyrics
      | none ↦ fetch_by_found_artist page title
    ]
  ]

  -- `url_escape` of NULL is NULL.
  unfoldable pub search_url : Option Bytes → Bytes
  search_url artist =
      codes "http://lyrics.wikia.com/api.php?func=getArtist&artist="
      ++ (shown (Option.map web.curl_escape artist) ++ codes "&fmt=text")

  unfoldable pub lyrics_fetch : Option Bytes → Option Bytes → Option Lyrics
  unfolding handle_lyrics_page fetch_by_search search_url
  lyrics_fetch artist title =
      elim (handle_lyrics_page web (shown artist ++ (codes ":" ++ shown title))) [
        | some lyrics ↦ some lyrics
        | none ↦ elim (web.url_fetch (search_url artist)) [
          | none ↦ none
          | some page ↦ fetch_by_search page (shown title)
        ]
      ]

-- `task_func` of a task of `lyrics_task`, at the time `now`.
unfoldable pub lyrics_task : Web → ℤ → ℤ → Query Unit
unfolding library_track_by_id lyrics_fetch library_lyrics_set
lyrics_task web now id = do
  row ← library_track_by_id id
  elim row [
    | none ↦ pure tt
    | some r ↦ library_lyrics_set id (lyrics_fetch web r.track.artist r.track.title) now
  ]
