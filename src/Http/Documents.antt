-- ===== src/Http/Documents.antt =====
-- Which files a request can read, and what becomes of a request whose first bytes come alone.
use musicd.Base.{
  ℕ, ◌≡◌, refl, ◌∙◌, ◌⊎◌, inl, inr, false, List, [], ◌∷◌, ◌++◌, Option, none, some, Option-cases,
  Bool-cases, Bytes, codes, equal, length, pos, negsuc, is_negative,
}
use musicd.Memory.{done}
use musicd.Strings.Search.{strstr}
use musicd.Client.{
  Connection, Protocol, Client, Read, Write, read_all, find_protocol, client_process,
}
use musicd.Client.Steps.{received}
use musicd.Client.Events.{client_process-unknown}
use musicd.Http.Access.{http_detect}
use musicd.Http.Reply.{
  Env, cors_headers, http_begin_headers, http_send_headers, http_send, http_reply,
  http_try_send_file, mime_type_from_path, send_document,
}

-- The files that are documents: the index, and those whose path does not lead back up.
abbrev pub IsDocument : Bytes → Bytes → Type 0
IsDocument root path =
    (path ≡ root ++ codes "/index.html")
    ⊎ ((rest : Bytes) × ((path ≡ root ++ (codes "/" ++ rest))
          × (strstr path (codes "/../") ≡ none)))

module _ {Wait : Type 0} where
  http_try_send_file-files :
      (env : Env) (other : Bytes → Option Bytes) (request : Option Bytes) (path kind : Bytes)
      (c : Connection Wait)
      → env.files path ≡ other path
      → http_try_send_file env request path kind c
        ≡ http_try_send_file (record env { files = other }) request path kind c
  unfolding http_try_send_file http_send http_send_headers http_begin_headers cors_headers
  http_try_send_file-files env other request path kind c e = elim (Option-cases (other path)) [
    | inl none_there ↦ rw (e ∙ none_there, http_try_send_file) (rw none_there refl)
    | inr ([], found) ↦ rw (e ∙ found, http_try_send_file) (rw found refl)
    | inr (b ∷ content, found) ↦ rw (e ∙ found, http_try_send_file) (rw found refl)
  ]

  -- What a request for a document is answered depends on no file but the documents: two file systems
  -- that agree on these give the same reply.
  pub send_document-IsDocument :
      (env : Env) (other : Bytes → Option Bytes) (root : Bytes) (request : Option Bytes)
      (path : Bytes) (c : Connection Wait)
      → env.http_root ≡ some root
      → ((file : Bytes) → IsDocument root file → env.files file ≡ other file)
      → send_document env request path c
        ≡ send_document (record env { files = other }) request path c
  unfolding send_document http_reply http_send http_send_headers http_begin_headers cors_headers
      http_try_send_file
  send_document-IsDocument env other root request path c rooted agree =
      let index = root ++ codes "/index.html" in
      let below = root ++ (codes "/" ++ path) in
      let kind = mime_type_from_path below in
      rw rooted (elim (Bool-cases (equal path (codes "/"))) [
        | inl is_root ↦
            rw (is_root, send_document)
              (rw
                (http_try_send_file-files env other request index (codes "text/html") c
                  (agree index (inl refl)))
                refl)
        | inr other_path ↦ elim (Option-cases (strstr below (codes "/../"))) [
          | inl e ↦
              rw (other_path, send_document)
                (rw e (
                  rw
                    (http_try_send_file-files env other request below kind c
                      (agree below (inr (path, (refl, e)))))
                    refl))
          | inr (found, e) ↦ rw (other_path, send_document) (rw e refl)
        ]
      ])

module _ {Self Wait : Type 0} where
  -- HTTP is the only protocol. A client whose first bytes are the beginning of a request, so that the
  -- detection asks for more data, is not given the time to send them: `client_process` returns -1.
  pub client_process-http_detect :
      (http : Protocol Self Wait) (reads : List Read) (write : ℕ → Write)
      (client : Client Self Wait)
      → ((buf : Bytes) → http.detect buf (length buf) ≡ http_detect buf (length buf))
      → client.protocol ≡ none
      → is_negative (read_all reads client).0 ≡ false
      → http_detect (client.inbuf ++ received reads) (length (client.inbuf ++ received reads))
        ≡ pos 0
      → client_process (http ∷ []) reads write client
        ≡ done (negsuc 0, record client { inbuf = client.inbuf ++ received reads })
  client_process-http_detect http reads write client detects unknown going more =
      let text = client.inbuf ++ received reads in
      let no_fit : find_protocol (http ∷ []) text ≡ none =
        unfold find_protocol in rw (detects text) (rw more refl) in
      client_process-unknown (http ∷ []) reads write client unknown going no_fit
