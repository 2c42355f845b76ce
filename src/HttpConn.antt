-- ===== src/HttpConn.antt =====
-- The HTTP connection of the web server, socket/pool/http_conn.h and http_conn.cpp: its types and
-- its state.
pub mod ParseLine
pub mod Connection
pub mod Request
pub mod ReadMachine
pub mod Response
pub mod Send
mod Tests
use unix_programming.Base.{ℕ, Bool, Option, List, [], ◌∷◌, ◌++◌, take, ℤ}

abbrev pub filename_len : ℕ
filename_len = 200

abbrev pub read_buffer_size : ℕ
read_buffer_size = 2048

abbrev pub write_buffer_size : ℕ
write_buffer_size = 1024

-- METHOD: the parser stores no other
pub data Method : Type 0 where
  get : Method

pub data CheckState : Type 0 where
  requestline header connect : CheckState

pub data HttpCode : Type 0 where
  no_request get_request bad_request no_resource forbidden_request file_request : HttpCode
  internal_error closed_connection : HttpCode

-- struct stat, as far as do_request reads it
pub record FileStat : Type 0 where
  pub size : ℕ
  pub is_read_by_others : Bool
  pub is_dir : Bool

-- The file system behind stat, open and mmap. `map` is what open and mmap give for a path: the
-- bytes, or none for MAP_FAILED.
pub record Files : Type 0 where
  pub stat : List ℕ → Option FileStat
  pub map : List ℕ → Option (List ℕ)

-- m_file_address: null, MAP_FAILED, or the mapped bytes
pub data Mapping : Type 0 where
  unmapped failed : Mapping
  mapped : List ℕ → Mapping

-- An entry of m_iv: m_write_buf with its bytes below m_write_idx, or m_file_address with st_size
pub data Block : Type 0 where
  text_block : List ℕ → Block
  file_block : Mapping → ℕ → Block

-- The bytes that writev finds there. Behind an address that is not mapped there are none: writev stops
-- in front of it.
abbrev pub block_bytes : Block → List ℕ
block_bytes (text_block bytes) = bytes
block_bytes (file_block (mapped bytes) n) = take n bytes
block_bytes (file_block unmapped n) = []
block_bytes (file_block failed n) = []

-- m_iv[0], then m_iv[1]
abbrev pub blocks : List Block → List ℕ
blocks [] = []
blocks (b ∷ bs) = block_bytes b ++ blocks bs

-- The fields of http_conn. A `char *` into m_read_buf is its offset, none for null; m_sockfd is
-- none for -1; `write_buf` holds the bytes of m_write_buf below m_write_idx; `iv` holds the entries
-- of m_iv below m_iv_count. m_address is not kept: nothing reads it.
pub record HttpConn : Type 0 where
  pub sockfd : Option ℕ
  pub read_buf : List ℕ
  pub read_idx : ℕ
  pub checked_idx : ℕ
  pub start_line : ℕ
  pub write_buf : List ℕ
  pub check_state : CheckState
  pub method : Method
  pub real_file : List ℕ
  pub url : Option ℕ
  pub version : Option ℕ
  pub host : Option ℕ
  pub content_length : ℤ
  pub linger : Bool
  pub file_address : Mapping
  pub file_size : ℕ
  pub iv : List Block
