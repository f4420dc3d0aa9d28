-- ===== src/Store/Access.antt =====
-- The ACL and cursor operations of internal/storage/postgres/postgres.go.
use go_ricochet.Base.{
  ℕ, Bool, true, false, not, ◌&&◌, none, some, List, [], ◌∷◌, ◌++◌, map, ◌==◌, if◌then◌else◌, keep,
  find_first, any_of, Text, ◌=ᵗ◌,
}
use go_ricochet.Wire.{AccessMode}
use go_ricochet.Store.Rows.{AclRow, CursorRow, Db}

abbrev pub acl_at : ℕ → Text → AclRow → Bool
acl_at mid peer a = a.mailbox_id == mid && a.peer =ᵗ peer

-- `GrantAccess`: an upsert.
unfoldable pub grant_access : ℕ → Text → AccessMode → Db → Db
grant_access mid peer mode db = record db {
  acls =
      if any_of (acl_at mid peer) db.acls
      then map (λ a. if acl_at mid peer a then record a { mode = mode } else a) db.acls
      else db.acls ++ record { mailbox_id = mid; peer = peer; mode = mode } ∷ [];
}

-- `RevokeAccess`
unfoldable pub revoke_access : ℕ → Text → Db → Db
revoke_access mid peer db = record db { acls = keep (λ a. not (acl_at mid peer a)) db.acls }

-- The switch of `CheckAccess`: what was granted covers what is required.
unfoldable pub mode_covers : AccessMode → AccessMode → Bool
mode_covers AccessMode.read_only AccessMode.read_only = true
mode_covers AccessMode.read_write AccessMode.read_only = true
mode_covers AccessMode.write_only AccessMode.write_only = true
mode_covers AccessMode.read_write AccessMode.write_only = true
mode_covers AccessMode.read_write AccessMode.read_write = true
mode_covers _ _ = false

-- `CheckAccess`
unfoldable pub check_access : ℕ → Text → AccessMode → Db → Bool
check_access mid peer required db = elim (find_first (acl_at mid peer) db.acls) [
  | none ↦ false
  | some a ↦ mode_covers a.mode required
]

-- `ListACL`
unfoldable pub list_acl : ℕ → Db → List AclRow
list_acl mid db = keep (λ a. a.mailbox_id == mid) db.acls

abbrev pub cursor_at : ℕ → Text → CursorRow → Bool
cursor_at mid reader c = c.mailbox_id == mid && c.reader =ᵗ reader

-- `GetCursor`: 0 where the reader has none.
unfoldable pub get_cursor : ℕ → Text → Db → ℕ
get_cursor mid reader db = elim (find_first (cursor_at mid reader) db.cursors) [
  | none ↦ 0
  | some c ↦ c.last_sequence_read
]

-- `UpdateCursor`: an upsert, which may also lower the cursor.
unfoldable pub update_cursor : ℕ → Text → ℕ → Db → Db
update_cursor mid reader seq db = record db {
  cursors =
      if any_of (cursor_at mid reader) db.cursors
      then map (λ c. if cursor_at mid reader c then record c { last_sequence_read = seq } else c)
          db.cursors
      else db.cursors
        ++ record { mailbox_id = mid; reader = reader; last_sequence_read = seq } ∷ [];
}
