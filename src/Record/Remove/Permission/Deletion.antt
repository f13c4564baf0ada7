-- ===== src/Record/Remove/Permission/Deletion.antt =====
-- internal/usecase/record/delete.go: the whole operation, from its targets to its writes.
use concrnt.Prelude.{Bool, true, false, not}
use concrnt.Commit.{Entity}
use concrnt.Record.{Env, ApplyResult}
use concrnt.Record.Remove.Choose.{Target}
use concrnt.Record.Remove.Permission.{IsPermitted, IsLawful}

-- the targets that a round may remove
abbrev Removable : Env → Entity → Bool → Target → Type 0
Removable env requester true t = IsPermitted env requester t.uri
Removable env requester false t = Unit

-- The result says by `noop` whether something was removed, and everything written is allowed.
abbrev pub IsLawfulResult : Env → Entity → ApplyResult → Type 0
IsLawfulResult env requester r = IsLawful env requester r.writes (not r.noop)
