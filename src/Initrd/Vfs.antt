-- ===== src/Initrd/Vfs.antt =====
-- kernel/vfs.c: the calls of the virtual file system.
use jslk.Base.{ℕ, not, write, ◌&&◌, ◌==◌, if◌then◌else◌}
use jslk.Base.Memory.{load32}
use jslk.Base.Outcome.{Outcome, done}
use jslk.Initrd.{
  Initrd, fs_directory, file_type_at, file_volume_at, volume_read_at, volume_write_at,
  volume_open_at, volume_close_at, volume_readdir_at, volume_finddir_at,
}

-- The virtual file system: `call f` is what the function at the address `f` does.
module _ (call : (f : ℕ) → (node offset size buffer : ℕ) → Initrd → ℕ × Initrd) where
  unfoldable pub read_fs : (node offset size buffer : ℕ) → Initrd → ℕ × Initrd
  read_fs node offset size buffer s =
      let read = load32 s.memory (volume_read_at (load32 s.memory (file_volume_at node))) in
      if read == 0 then (0, s) else call read node offset size buffer s

  unfoldable pub write_fs : (node offset size buffer : ℕ) → Initrd → ℕ × Initrd
  write_fs node offset size buffer s =
      let write = load32 s.memory (volume_write_at (load32 s.memory (file_volume_at node))) in
      if write == 0 then (0, s) else call write node offset size buffer s

module _ (call : (f node read write : ℕ) → Initrd → Initrd) where
  unfoldable pub open_fs : (node read write : ℕ) → Initrd → Initrd
  open_fs node read write s =
      let opener = load32 s.memory (volume_open_at (load32 s.memory (file_volume_at node))) in
      if opener == 0 then s else call opener node read write s

module _ (call : (f node : ℕ) → Initrd → Initrd) where
  unfoldable pub close_fs : (node : ℕ) → Initrd → Initrd
  close_fs node s =
      let closer = load32 s.memory (volume_close_at (load32 s.memory (file_volume_at node))) in
      if closer == 0 then s else call closer node s

module _ (call : (f node argument : ℕ) → Initrd → Outcome (ℕ × Initrd)) where
  unfoldable pub readdir_fs : (node index : ℕ) → Initrd → Outcome (ℕ × Initrd)
  readdir_fs node index s =
      let readdir = load32 s.memory (volume_readdir_at (load32 s.memory (file_volume_at node))) in
      if (s.memory (file_type_at node) == fs_directory) && not (readdir == 0)
      then call readdir node index s
      else done (0, s)

  unfoldable pub finddir_fs : (node name : ℕ) → Initrd → Outcome (ℕ × Initrd)
  finddir_fs node name s =
      let finddir = load32 s.memory (volume_finddir_at (load32 s.memory (file_volume_at node))) in
      if (s.memory (file_type_at node) == fs_directory) && not (finddir == 0)
      then call finddir node name s
      else done (0, s)
