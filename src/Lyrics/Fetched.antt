-- ===== src/Lyrics/Fetched.antt =====
-- src/lyrics.c: where lyrics come from, and what the task that fetches them leaves in the library.
use musicd.Base.{
  ◌≡◌, ◌∙◌, ◌⊎◌, inl, inr, ◌++◌, Option, none, some, arith, Bytes, codes, Option-cases, List-cases,
}
use musicd.Lyrics.{
  Web, shown, page_url, parse_lyrics_page, handle_lyrics_page, find_lyrics_page_name,
  fetch_by_found_artist, fetch_by_search, search_url, lyrics_fetch,
}
use musicd.Strings.Search.{strchrnull}
use musicd.Library.Words.{Lyrics}

module _ (web : Web) where
  -- The lyrics are what was found in a page that was fetched from their source.
  pub record IsFetched (l : Lyrics) : Type 0 where
    pub name : Bytes
    pub page : Bytes
    pub text : Bytes
    pub fetched : web.url_fetch (page_url web name) ≡ some page
    pub parsed : parse_lyrics_page web page ≡ some text
    pub lyrics : l.lyrics ≡ some text
    pub provider : l.provider ≡ some (codes "LyricWiki")
    pub source : l.source ≡ some (page_url web name)

  handle-IsFetched :
      (name : Bytes) {l : Lyrics} → handle_lyrics_page web name ≡ some l → IsFetched l
  unfolding handle_lyrics_page
  handle-IsFetched name {l} h = elim (Option-cases (web.url_fetch (page_url web name))) [
    | inl e ↦ absurd (ground (arith, h, e))
    | inr (page, e) ↦ elim (Option-cases (parse_lyrics_page web page)) [
      | inl p ↦ absurd (ground (arith, h, e, p))
      | inr (text, p) ↦ record {
        name = name;
        page = page;
        text = text;
        fetched = e;
        parsed = p;
        lyrics = ground (arith, h, e, p);
        provider = ground (arith, h, e, p);
        source = ground (arith, h, e, p);
      }
    ]
  ]

  by_artist-IsFetched :
      (page title : Bytes) {l : Lyrics}
      → fetch_by_found_artist web page title ≡ some l
      → IsFetched l
  unfolding fetch_by_found_artist
  by_artist-IsFetched page title {l} h = elim (List-cases (strchrnull page b':')) [
    | inl e ↦ absurd (ground (arith, h, e))
    | inr (c, p, e) ↦ handle-IsFetched _ (rw (e, fetch_by_found_artist) at h)
  ]

  by_search-IsFetched :
      (page title : Bytes) {l : Lyrics} → fetch_by_search web page title ≡ some l → IsFetched l
  unfolding fetch_by_search
  by_search-IsFetched page title {l} h = elim (Option-cases (find_lyrics_page_name page title)) [
    | inl e ↦ by_artist-IsFetched page title (rw (e, fetch_by_search) at h)
    | inr (name, e) ↦ elim (Option-cases (handle_lyrics_page web name)) [
      | inl o ↦ by_artist-IsFetched page title (rw (e, fetch_by_search, o) at h)
      | inr (l', o) ↦ handle-IsFetched name (o ∙ (rw (e, fetch_by_search, o) at h))
    ]
  ]

  -- Whatever the network answers, lyrics that are fetched are those of a page that was fetched from
  -- the address given as their source; and the page of the artist and the title themselves, where it
  -- has lyrics, goes before all others.
  pub lyrics_fetch-IsFetched :
      (artist title : Option Bytes) (l : Lyrics)
      → lyrics_fetch web artist title ≡ some l
      → IsFetched l
        × ((handle_lyrics_page web (shown artist ++ (codes ":" ++ shown title)) ≡ none)
            ⊎ (handle_lyrics_page web (shown artist ++ (codes ":" ++ shown title)) ≡ some l))
  unfolding lyrics_fetch
  lyrics_fetch-IsFetched artist title l h =
      elim (Option-cases (handle_lyrics_page web (shown artist ++ (codes ":" ++ shown title)))) [
        | inr (l', e) ↦
            let whole : handle_lyrics_page web (shown artist ++ (codes ":" ++ shown title))
                ≡ some l =
              e ∙ (rw (e, lyrics_fetch) at h) in
            (handle-IsFetched _ whole, inr whole)
        | inl e ↦ elim (Option-cases (web.url_fetch (search_url web artist))) [
          | inl o ↦ absurd (ground (arith, h, e, o))
          | inr (page, o) ↦
              (by_search-IsFetched page (shown title) (rw (e, lyrics_fetch, o) at h), inl e)
        ]
      ]
