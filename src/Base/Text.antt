-- ===== src/Base/Text.antt =====
-- Text as the codes of its characters, and what the programs use of the C++ library on text.
mod Chars
mod Tokens
mod Numbers
mod Format
unfoldable pub use Chars.*
unfoldable pub use Tokens.*
unfoldable pub use Numbers.*
unfoldable pub use Format.*
