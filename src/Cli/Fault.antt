-- ===== src/Cli/Fault.antt =====
-- ark-cli/src/error.rs.
use ark_rust.Base.{String}
use ark_rust.Error.{ArklibError, IoError}

pub data InlineJsonParseError : Type 0 where
  invalid_key_val_pair : InlineJsonParseError

pub data AppError : Type 0 where
  home_dir_not_found : AppError
  ark_directory_creation_error : String → AppError
  app_id_load_error : String → AppError
  index_error : String → AppError
  storage_creation_error : String → AppError
  link_creation_error : String → AppError
  link_load_error : String → AppError
  file_operation_error : String → AppError
  backup_creation_error : String → AppError
  invalid_render_option : AppError
  storage_not_found : String → AppError
  invalid_entry_option : AppError
  io_error : IoError → AppError
  arklib_error : ArklibError → AppError
  inline_json_parse_error : InlineJsonParseError → AppError
