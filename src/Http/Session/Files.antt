-- ===== src/Http/Session/Files.antt =====
-- What a request for a file is answered by.
use socker.Prelude.{
  ℕ, suc, ◌+◌, ◌≡◌, ◌≢◌, refl, ap, ◌∙◌, inl, inr, true, false, not, ◌||◌, Option, none, some, [],
  ◌∷◌, ◌++◌, arith, if◌then◌else◌, ◌==◌, nat_eq, Bool-cases, All, drop, is_empty, length,
}
use socker.Assoc.{get, put}
use socker.Text.{Text, text_eq, text_beq, bytes}
use socker.Http.Beast.{
  Request, Response, Beast, FileOpen, no_such_file, open_failed, opened, string_body, empty_body,
  file_body,
}
use socker.Http.Uri.{minetype}
use socker.Http.Uri.Path.{rfind-append}
use socker.Http.Session.{Session, Wire, default, text_response, file_fields, reply_file}
use socker.Http.Session.Replies.{IsFresh, IsAnswered, reply-IsFresh, file_response, reply_file_lem}

module _ (dir file name : Text) where
  abbrev pub path : Text
  path = dir ++ b'/' ∷ file

  -- the header that proposes a name for the file: where its type is not known, and not for HEAD
  abbrev pub disposition : Request → Option Text
  disposition req =
      if (req.method == 3) || not (is_empty (minetype path))
      then none
      else some (bytes "attachment;filename=" ++ (if is_empty name then file else name))

  -- what the response says, by what opening the file shows
  abbrev pub IsFileReply : Request → FileOpen → Response → Type 0
  IsFileReply req no_such_file r =
      (r.result ≡ 404)
      × (r.body ≡ string_body (bytes "The resource '" ++ (req.target ++ bytes "' was not found.")))
  IsFileReply req (open_failed message) r =
      (r.result ≡ 500)
      × (r.body ≡ string_body (bytes "An error occurred: '" ++ (message ++ bytes "'.")))
  IsFileReply req (opened size) r =
      (r.result ≡ 200)
      × (r.version ≡ req.version)
      × (r.keep_alive ≡ req.keep_alive)
      × (r.content_length ≡ some size)
      × (r.body ≡ (if req.method == 3 then empty_body else file_body path size))
      × (get (bytes "Content-Type") r.fields ≡ some (minetype path))
      × (get (bytes "Server") r.fields ≡ some (bytes "Asula/1.0 HTTP Server, based on boost beast"))
      × (get (bytes "Content-Disposition") r.fields ≡ disposition req)

  drop-last_part : drop (length dir + 1) path ≡ file
  drop-last_part = ap (λ n. drop n path) (plus_one (length dir)) ∙ go dir
    where
      plus_one : (n : ℕ) → n + 1 ≡ suc n
      plus_one n = omega arith

      go : (p : Text) → drop (suc (length p)) (p ++ b'/' ∷ file) ≡ file
      go [] = refl
      go (x ∷ p) = go p

  module _ (beast : Beast) where
    fields_known :
        is_empty (minetype path) ≡ false
        → let fields = file_fields beast path name in
          (get (bytes "Content-Type") fields ≡ some (minetype path))
          × (get (bytes "Server") fields
              ≡ some (bytes "Asula/1.0 HTTP Server, based on boost beast"))
          × (get (bytes "Content-Disposition") fields ≡ none)
    unfolding file_fields get put text_beq
    fields_known known = rw (known, file_fields) (refl, refl, refl)

    fields_unknown :
        All (λ x. x ≢ b'/') file
        → is_empty (minetype path) ≡ true
        → let fields = file_fields beast path name in
          (get (bytes "Content-Type") fields ≡ some (minetype path))
          × (get (bytes "Server") fields
              ≡ some (bytes "Asula/1.0 HTTP Server, based on boost beast"))
          × (get (bytes "Content-Disposition") fields
              ≡ some (bytes "attachment;filename=" ++ (if is_empty name then file else name)))
    unfolding file_fields get put text_beq
    fields_unknown last unknown =
        rw (unknown, file_fields)
          (rw (rfind-append b'/' dir file last, file_fields) (rw drop-last_part (refl, refl, refl)))

    opened-IsFileReply :
        (size : ℕ) (req : Request)
        → All (λ x. x ≢ b'/') file
        → IsFileReply req (opened size) (file_response beast (opened size) path name req)
    unfolding file_response get put text_beq
    opened-IsFileReply size req last = elim (Bool-cases (req.method == 3)) [
      | inl head ↦ rw head (refl, refl, refl, refl, refl, refl, refl, refl)
      | inr other ↦ rw other (elim (Bool-cases (is_empty (minetype path))) [
        | inl unknown ↦
            let (type, server, shown) = fields_unknown last unknown in
            rw unknown (refl, refl, refl, refl, refl, type, server, shown)
        | inr known ↦
            let (type, server, shown) = fields_known known in
            rw known (refl, refl, refl, refl, refl, type, server, shown)
      ])
    ]

    text_response-IsReply :
        (body : Text) (status : ℕ) (req : Request)
        → let r = text_response beast default body status req in
          (r.result ≡ status) × (r.body ≡ string_body body)
    unfolding text_response
    text_response-IsReply body status req =
        (beast.prepare_payload-result _, beast.prepare_payload-body _)

    response-IsFileReply :
        (o : FileOpen) (req : Request)
        → All (λ x. x ≢ b'/') file
        → IsFileReply req o (file_response beast o path name req)
    unfolding file_response
    response-IsFileReply no_such_file req last =
        text_response-IsReply (bytes "The resource '" ++ (req.target ++ bytes "' was not found."))
          404 req
    response-IsFileReply (open_failed message) req last =
        text_response-IsReply (bytes "An error occurred: '" ++ (message ++ bytes "'.")) 500 req
    response-IsFileReply (opened size) req last = opened-IsFileReply size req last

    -- Let nothing be sent for the session, and a file be asked for, whose path ends, behind a slash, in
    -- a name without one. Exactly one response is sent. If there is no such file, it is a 404 with the
    -- target of the request in its text; if the file cannot be opened, a 500 with the message; else a
    -- 200 of the file's size, with the file, or without a body for HEAD, the type of the path, and,
    -- where that is empty and the request no HEAD, a disposition with the name that was given, or
    -- else the one that ends the path.
    pub reply_file-IsFileReply :
        (w : Wire) (s : Session)
        → All (λ x. x ≢ b'/') file
        → IsFresh w s
        → (r : Response) × IsAnswered beast w r (reply_file beast path name s)
          × IsFileReply s.req (beast.open_file path) r
    reply_file-IsFileReply w s last fresh =
        let r = file_response beast (beast.open_file path) path name s.req in
        (
          r,
          (rw (reply_file_lem beast path name s) (reply-IsFresh beast w r s fresh)),
          response-IsFileReply (beast.open_file path) s.req last,
        )
