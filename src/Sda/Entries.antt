-- ===== src/Sda/Entries.antt =====
-- The DIRECTORY operation of internal/protocol/sda/handler.go.
use go_ricochet.Base.{
  not, Option, none, some, [], ◌∷◌, if◌then◌else◌, ◌>>=◌, Text, codes, ◌=ᵗ◌, ℤ, pos, is_positive,
}
use go_ricochet.Directory.{
  Profile, upsert_directory_entry, remove_directory_entry, get_directory_entry, browse_directory,
  Browsed, page, browse_error,
}
use go_ricochet.Sda.{
  DocRequest, Reply, reply, Scope, Tables, status_only, check_listing_fields, json_reply, json_type,
}

abbrev pub no_profile : Profile
no_profile = record { display_name = []; bio = []; avatar_hash = []; extras = none }

-- The profile of a join: the zero value without a body.
abbrev pub joined_profile : Scope → Text → Option Profile
joined_profile sc [] = some no_profile
joined_profile sc (c ∷ cs) = do body ← sc.lib.base64_decode (c ∷ cs); sc.lib.decode_profile body

-- `handleDirectoryJoin`
unfoldable pub directory_join : Scope → DocRequest → Text → Tables → Tables × Reply
directory_join sc req owner s = elim (joined_profile sc req.body) [
  | none ↦ (s, reply (status_only 400))
  | some p ↦
      if p.display_name =ᵗ []
      then (s, reply (status_only 400))
      else if not (check_listing_fields sc.lib p)
      then (s, reply (status_only 400))
      else (
        record s { listings = upsert_directory_entry sc.now owner p s.listings },
        reply (status_only 200),
      )
]

-- `handleDirectoryLeave`
unfoldable pub directory_leave : Text → Tables → Tables × Reply
directory_leave owner s =
    (record s { listings = remove_directory_entry owner s.listings }, reply (status_only 204))

abbrev pub directory_limit_of : Option ℤ → ℤ
directory_limit_of none = pos 20
directory_limit_of (some n) = if is_positive n then n else pos 20

abbrev pub browse_reply : Scope → Browsed → Reply
browse_reply sc (browse_error e) = reply (status_only 400)
browse_reply sc (page p) = json_reply sc.lib (json_type ∷ []) (sc.lib.encode_page p)

-- `handleDirectoryBrowse`
unfoldable pub directory_browse : Scope → DocRequest → Tables → Reply
directory_browse sc req s = browse_reply sc (
    browse_directory sc.lib.browse req.directory_query req.directory_cursor
      (directory_limit_of req.directory_limit) s.listings)

-- `handleDirectoryGet`
unfoldable pub directory_get : Scope → Text → Tables → Reply
directory_get sc owner s = elim (get_directory_entry owner s.listings) [
  | none ↦ reply (status_only 404)
  | some e ↦ json_reply sc.lib (json_type ∷ []) (sc.lib.encode_entry e)
]

-- `handleDirectory`
unfoldable pub handle_directory : Scope → DocRequest → Text → Tables → Tables × Reply
handle_directory sc req owner s =
    if req.directory_action =ᵗ codes "join"
    then directory_join sc req owner s
    else if req.directory_action =ᵗ codes "leave"
    then directory_leave owner s
    else if req.directory_action =ᵗ codes "browse"
    then (s, directory_browse sc req s)
    else if req.directory_action =ᵗ codes "get"
    then (s, directory_get sc owner s)
    else (s, reply (status_only 400))
