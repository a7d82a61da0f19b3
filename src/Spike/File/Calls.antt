-- ===== src/Spike/File/Calls.antt =====
-- The calls on host files of spike_interface/spike_file.c, through `frontend_syscall`. A call on
-- NULL is not modelled: `f` is a slot of the table.
use lq_os_lab.Base.{ℕ, ◌+◌, ◌-◌, ◌^◌, ◌<◌, ◌≡◌, ◌≢◌, arith, true, ltb, if◌then◌else◌}
use lq_os_lab.Base.Memory.{u64_mod, u32_mod}
use lq_os_lab.Spike.File.{Files}
use lq_os_lab.Spike.Htif.{
  Device, Host, Service, magic_words, Frontend, Called, returned, frontend_syscall,
}
use lq_os_lab.Spike.Htif.Answers.{Serves, finished, frontend_syscall-returns}

abbrev pub htifsys_read : ℕ
htifsys_read = 63

abbrev pub htifsys_write : ℕ
htifsys_write = 64

abbrev pub htifsys_lseek : ℕ
htifsys_lseek = 62

abbrev pub htifsys_pread : ℕ
htifsys_pread = 67

-- An `int`, given as its 32 bits, passed as a `uint64`.
unfoldable pub sign_extend : ℕ → ℕ
sign_extend k = if ltb k (2 ^ 31) then k else k + (u64_mod - u32_mod)

module _ (host : Host) (service : Service) (polls magic : ℕ) (s : Files) where
  unfoldable pub spike_file_write : ℕ → ℕ → ℕ → Frontend → Called
  spike_file_write f buf size =
      frontend_syscall host service polls magic htifsys_write (sign_extend (s.files f).kfd) buf size
        0 0 0 0

  unfoldable pub spike_file_pread : ℕ → ℕ → ℕ → ℕ → Frontend → Called
  spike_file_pread f buf size offset =
      frontend_syscall host service polls magic htifsys_pread (sign_extend (s.files f).kfd) buf size
        offset 0 0 0

  unfoldable pub spike_file_read : ℕ → ℕ → ℕ → Frontend → Called
  spike_file_read f buf size =
      frontend_syscall host service polls magic htifsys_read (sign_extend (s.files f).kfd) buf size
        0 0 0 0

  -- `dir` is an `int`, given as its 32 bits.
  unfoldable pub spike_file_lseek : ℕ → ℕ → ℕ → Frontend → Called
  spike_file_lseek f ptr dir =
      frontend_syscall host service polls magic htifsys_lseek (sign_extend (s.files f).kfd) ptr
        (sign_extend dir) 0 0 0 0

-- With the locks free, the registers empty and a host that answers, a positioned read returns what
-- the host makes of its request for the file's descriptor.
pub spike_file_pread-returns :
    (host : Host) (reply : ℕ → ℕ) (service : Service) (magic : ℕ) (files : Files)
    (f buf size offset : ℕ) (s : Frontend)
    → Serves host reply
    → magic ≢ 0
    → magic < 2 ^ 48
    → s.lock ≡ 0
    → s.device.htif_lock ≡ 0
    → s.device.tohost ≡ 0
    → s.device.fromhost ≡ 0
    → (files.files f).kfd < 2 ^ 31
    → (polls : ℕ) × (v : Frontend) × (spike_file_pread host service polls magic files f buf size
          offset s
        ≡ returned
            (service (magic_words htifsys_pread (files.files f).kfd buf size offset 0 0 0))
            v)
unfolding spike_file_pread sign_extend
spike_file_pread-returns host reply service magic files f buf size offset s serves nz small l hl e g
      fd =
    let same : ltb (files.files f).kfd (2 ^ 31) ≡ true = ground arith in
    let (polls, t, r) =
      frontend_syscall-returns host reply service magic htifsys_pread (files.files f).kfd buf size
        offset 0 0 0 s serves nz small l hl e g in
    let words = magic_words htifsys_pread (files.files f).kfd buf size offset 0 0 0 in
    let idle : Device = record (s.device) { tohost = 0; fromhost = 0; htif_lock = 0; time = t } in
    (polls, finished (service words) words idle, rw same r)
