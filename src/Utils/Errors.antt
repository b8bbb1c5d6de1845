-- ===== src/Utils/Errors.antt =====
-- `ErrorStatus` of kernel/src/utils/errors.rs, and what the errors of the file systems and of the
-- loader become as statuses (`IntoErr`).
use safa_os.Vfs.Types.{FsError}
use safa_os.Vfs.Types

pub data ErrorStatus : Type 0 where
  no_error generic operation_not_supported not_supported corrupted invaild_syscall : ErrorStatus
  invaild_resource invaild_pid invaild_ptr invaild_str invaild_path : ErrorStatus
  no_such_a_file_or_directory not_a_file not_a_directory already_exists not_executable : ErrorStatus
  directory_not_empty missing_permissions mmap_error busy not_enough_arguments : ErrorStatus

-- `IntoErr for FSError`
pub fs_into_err : FsError → ErrorStatus
fs_into_err Types.operation_not_supported = operation_not_supported
fs_into_err Types.not_a_file = not_a_file
fs_into_err Types.not_a_directory = not_a_directory
fs_into_err Types.no_such_a_file_or_directory = no_such_a_file_or_directory
fs_into_err Types.invaild_path = invaild_path
fs_into_err Types.invaild_drive = no_such_a_file_or_directory
fs_into_err Types.invaild_file_descriptor_or_res = invaild_resource
fs_into_err Types.already_exists = already_exists
fs_into_err Types.not_executeable = not_executable
fs_into_err Types.resource_busy = busy

pub data ElfError : Type 0 where
  unsupported_class unsupported_endianness unsupported_kind : ElfError
  unsupported_insturction_set not_an_elf not_an_executable map_to_error : ElfError
  supported_elf_corrupted : ElfError

-- `IntoErr for ElfError`
pub elf_into_err : ElfError → ErrorStatus
elf_into_err not_an_executable = not_executable
elf_into_err not_an_elf = not_executable
elf_into_err map_to_error = mmap_error
elf_into_err supported_elf_corrupted = corrupted
elf_into_err _ = not_supported
