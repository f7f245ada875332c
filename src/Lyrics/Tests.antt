-- ===== src/Lyrics/Tests.antt =====
-- Tests of the search for lyrics, and the properties at concrete inputs.
use musicd.Base.{◌≡◌, refl, ◌⊎◌, false, [], ◌∷◌, none, some, arith, codes}
use musicd.Strings.Search.{strstr, strchr, or_end, strextract, strbeginswith}
use musicd.Library.Words.{Lyrics}
use musicd.Lyrics.{
  Web, find_lyrics_page_name, line_from, line_start, parse_lyrics_page, handle_lyrics_page,
  lyrics_fetch, page_url, parse_entities, four_bytes,
}
use musicd.Lyrics.Pages.{find_lyrics_page_name-line}
use musicd.Lyrics.Fetched.{IsFetched, lyrics_fetch-IsFetched}

second_line :
    find_lyrics_page_name (codes "Band\nBand:Song\nBand:Other\n") (codes "Song")
    ≡ some (codes "Band:Song")
unfolding find_lyrics_page_name line_from line_start strstr strbeginswith strchr or_end strextract
second_line = refl

first_line :
    find_lyrics_page_name (codes "Band:Song\nBand:Other\n") (codes "Song") ≡ some (codes "and:Song")
unfolding find_lyrics_page_name line_from line_start strstr strbeginswith strchr or_end strextract
first_line = refl

find_lyrics_page_name-line_example :
    find_lyrics_page_name (codes "Band\nBand:Song\nBand:Other\n") (codes "Song")
    ≡ some (codes "Band:Song")
unfolding strstr strbeginswith
find_lyrics_page_name-line_example =
    find_lyrics_page_name-line false b'S' (codes "Band") (codes "Band:") (codes "ong")
      (codes "Band:Other\n")
      (
        λ e. absurd (ground (arith, e)),
        (
          λ e. absurd (ground (arith, e)),
          (
            λ e. absurd (ground (arith, e)),
            (λ e. absurd (ground (arith, e)), (λ e. absurd (ground (arith, e)), tt)),
          ),
        ),
      )
      (
        λ e. absurd (ground (arith, e)),
        (
          λ e. absurd (ground (arith, e)),
          (λ e. absurd (ground (arith, e)), (λ e. absurd (ground (arith, e)), tt)),
        ),
      )
      refl

-- One page is known, with one entity.
abbrev web : Web
web = record {
  url_fetch = λ url. some (codes "<div class='lyricbox'>&#65;");
  curl_escape = λ s. s;
  string_iconv = λ s. s;
  scan_entity = λ s. some 65;
}

abbrev found : Lyrics
found = record {
  lyrics = some (65 ∷ 0 ∷ 0 ∷ 0 ∷ []);
  provider = some (codes "LyricWiki");
  source = some (codes "http://lyrics.wikia.com/Band:Song");
}

lyrics_fetch-IsFetched_example :
    IsFetched web found
    × ((handle_lyrics_page web (codes "Band:Song") ≡ none)
        ⊎ (handle_lyrics_page web (codes "Band:Song") ≡ some found))
unfolding lyrics_fetch handle_lyrics_page page_url parse_lyrics_page parse_entities four_bytes
    strstr strbeginswith
lyrics_fetch-IsFetched_example =
    lyrics_fetch-IsFetched web (some (codes "Band")) (some (codes "Song")) found refl
