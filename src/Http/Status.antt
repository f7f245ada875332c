-- ===== src/Http/Status.antt =====
-- src/protocol_http.c: the handlers that tell what the server is and does, and that start a scan. The
-- settings, the times and the library's number of tracks are arguments; `decimal` is how printf writes
-- a number.
use musicd.Base.{
  ◌≡◌, refl, ap, ◌∙◌, Bool, false, ◌||◌, Option, none, some, is_some, Bytes, codes, ℤ, pos,
}
use musicd.Memory.{Run, done, ◌>>=◌}
use musicd.Json.{
  Json, json_init, json_object_begin, json_object_end, json_array_begin, json_array_end,
  json_define, json_bool, json_int, json_string,
}
use musicd.Json.Print.{
  Value, text, truth, number, array, object, no_items, item, no_members, member, emit, print,
  emit-print,
}
use musicd.Sessions.{Session}
use musicd.Client.{Connection}
use musicd.Scan.Thread.{Scanner, scan_start}
use musicd.Http.Reply.{Env, version, http_send}

-- `scan_status_t`
pub record ScanStatus : Type 0 where
  pub active : Bool
  pub start_time : ℤ
  pub end_time : ℤ
  pub new_tracks : ℤ

-- `(http->session && http->session->user) || config_to_bool("no-auth")`
unfoldable pub is_authed : Bool → Option Session → Bool
is_authed no_auth session =
    elim session as (λ s. Bool) [ none ↦ false | some s ↦ is_some s.user ] || no_auth

module _ (decimal : ℤ → Bytes) where
  abbrev pub string_field : Bytes → Bytes → Json → Json
  string_field name t json = json_string (json_define json name) (some t)

  abbrev pub int_field : Bytes → ℤ → Json → Json
  int_field name i json = json_int decimal (json_define json name) i

  abbrev pub bool_field : Bytes → Bool → Json → Json
  bool_field name b json = json_bool (json_define json name) b

  -- `http_send_text(http, "200 OK", "text/json", …)` of a serializer's text.
  abbrev pub send_json :
      {Wait : Type 0} → Env → Bytes → Json → Connection Wait → Run (ℤ × Connection Wait)
  send_json env buf json c = do
    c' ← http_send env (some buf) (some (codes "200 OK")) (some (codes "text/json")) json.buf c
    done (pos 0, c')

  unfoldable pub musicd_json : Bytes → Bool → Json
  musicd_json server_name authed =
      let begun = string_field (codes "httpapi") (codes "1") (
        string_field (codes "version") version
          (string_field (codes "name") server_name (json_object_begin json_init))) in
      let codecs = json_array_end (
        json_string
          (json_array_begin
            (json_define (bool_field (codes "authed") authed begun) (codes "codecs")))
          (some (codes "mp3"))) in
      let rates =
        int_field (codes "bitratemax") (pos 320000)
          (int_field (codes "bitratemin") (pos 64000) codecs) in
      let sizes = json_array_begin (json_define rates (codes "imagesizes")) in
      json_object_end (
        json_array_end (
          json_int decimal
            (json_int decimal
              (json_int decimal
                (json_int decimal (json_int decimal (json_int decimal sizes (pos 16)) (pos 32))
                  (pos 64))
                (pos 128))
              (pos 256))
            (pos 512)))

  unfoldable pub method_musicd :
      {Wait : Type 0}
      → Env
      → Bytes
      → Bytes
      → Bool
      → Option Session
      → Connection Wait
      → Run (ℤ × Connection Wait)
  unfolding musicd_json is_authed
  method_musicd env buf server_name no_auth session c =
      send_json env buf (musicd_json server_name (is_authed no_auth session)) c

  unfoldable pub status_json : ℤ → ℤ → ℤ → ScanStatus → Json
  status_json start now tracks status =
      let begun = int_field (codes "tracks") tracks (
        int_field (codes "time") now
          (int_field (codes "starttime") start (json_object_begin json_init))) in
      let scan = int_field (codes "newtracks") status.new_tracks (
        int_field (codes "endtime") status.end_time (
          int_field (codes "starttime") status.start_time (
            bool_field (codes "active") status.active
              (json_object_begin (json_define begun (codes "scan")))))) in
      json_object_end (json_object_end scan)

  unfoldable pub method_status :
      {Wait : Type 0}
      → Env
      → Bytes
      → ℤ
      → ℤ
      → ℤ
      → ScanStatus
      → Connection Wait
      → Run (ℤ × Connection Wait)
  unfolding status_json
  method_status env buf start now tracks status c =
      send_json env buf (status_json start now tracks status) c

  -- The values that the documents are the texts of.
  abbrev pub musicd_value : Bytes → Bool → Value
  musicd_value server_name authed = object (
      member (codes "name") (text (some server_name)) (
        member (codes "version") (text (some version)) (
          member (codes "httpapi") (text (some (codes "1"))) (
            member (codes "authed") (truth authed) (
              member (codes "codecs") (array (item (text (some (codes "mp3"))) no_items)) (
                member (codes "bitratemin") (number (pos 64000)) (
                  member (codes "bitratemax") (number (pos 320000)) (
                    member (codes "imagesizes")
                      (array (
                        item (number (pos 16)) (
                          item (number (pos 32)) (
                            item (number (pos 64)) (
                              item (number (pos 128))
                                (item (number (pos 256)) (item (number (pos 512)) no_items)))))))
                      no_members))))))))

  abbrev pub status_value : ℤ → ℤ → ℤ → ScanStatus → Value
  status_value start now tracks status = object (
      member (codes "starttime") (number start) (
        member (codes "time") (number now) (
          member (codes "tracks") (number tracks) (
            member (codes "scan")
              (object (
                member (codes "active") (truth status.active) (
                  member (codes "starttime") (number status.start_time) (
                    member (codes "endtime") (number status.end_time)
                      (member (codes "newtracks") (number status.new_tracks) no_members)))))
              no_members))))

  -- What the server tells of itself and of its scan are the texts of JSON objects.
  pub musicd_json-print :
      (server_name : Bytes) (authed : Bool) (start now tracks : ℤ) (status : ScanStatus)
      → ((musicd_json server_name authed).buf ≡ print decimal (musicd_value server_name authed))
        × ((status_json start now tracks status).buf
            ≡ print decimal (status_value start now tracks status))
  unfolding musicd_json status_json emit
  musicd_json-print server_name authed start now tracks status = (
    ap (λ (j : Json). j.buf) (emit-print decimal (musicd_value server_name authed) json_init)
        ∙ unfold json_init in refl,
    ap (λ (j : Json). j.buf) (emit-print decimal (status_value start now tracks status) json_init)
        ∙ unfold json_init in refl,
  )

-- The scan is started, or asked for again, and the reply is the text that stands for success.
unfoldable pub method_rescan :
    {Wait : Type 0}
    → Env
    → Bytes
    → Bool
    → Bool
    → Scanner
    → Connection Wait
    → Run (ℤ × Scanner × Connection Wait)
unfolding scan_start
method_rescan env buf configured creates s c = do
  c' ← http_send env (some buf) none (some (codes "text/json")) (codes "{success:true}") c
  done (pos 0, (scan_start configured creates s).1, c')
