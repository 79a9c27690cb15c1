-- ===== src/Publish/Mime.antt =====
-- publish/mimetypes.go: `guessMimeType`. Texts are lists of bytes, and only the ASCII letters and white space
-- among them are lower-cased and trimmed.
use reflector_go.Prelude.{
  Option, Str, ℕ, ◌∷◌, bytes, map, Bool, some, if◌then◌else◌, str_eq, ◌==◌, [], leb, ◌++◌, ◌||◌,
  none, ◌&&◌, ◌+◌,
}
use reflector_go.Prelude.Dict.{Dict, lookup}
use mathlib.Core.List.{reverse}

-- `strings.TrimLeft(s, ".")`
unfoldable pub trim_dots : Str → Str
trim_dots [] = []
trim_dots (c ∷ s) = let rest = trim_dots s in if c == b'.' then rest else c ∷ s

-- `unicode.IsSpace` on ASCII
abbrev pub is_space : ℕ → Bool
is_space c = (c == 0x20) || (leb 9 c && leb c 13)

unfoldable pub trim_start : Str → Str
trim_start [] = []
trim_start (c ∷ s) = let rest = trim_start s in if is_space c then rest else c ∷ s

-- `strings.TrimSpace`
unfoldable pub trim_space : Str → Str
unfolding trim_start
trim_space s = reverse (trim_start (reverse (trim_start s)))

abbrev pub to_lower : ℕ → ℕ
to_lower c = if leb b'A' c && leb c b'Z' then c + 32 else c

-- `strings.ToLower(strings.TrimLeft(strings.TrimSpace(ext), "."))`
unfoldable pub normal : Str → Str
unfolding trim_dots trim_space
normal ext = map to_lower (trim_dots (trim_space ext))

-- A media type and a category.
abbrev pub MimeType : Type 0
MimeType = Str × Str

-- The table of known extensions.
unfoldable pub types : Dict MimeType
types =
    (bytes "a", (bytes "application/octet-stream", bytes "binary"))
    ∷ (bytes "ai", (bytes "application/postscript", bytes "image"))
    ∷ (bytes "aif", (bytes "audio/x-aiff", bytes "audio"))
    ∷ (bytes "aifc", (bytes "audio/x-aiff", bytes "audio"))
    ∷ (bytes "aiff", (bytes "audio/x-aiff", bytes "audio"))
    ∷ (bytes "au", (bytes "audio/basic", bytes "audio"))
    ∷ (bytes "avi", (bytes "video/x-msvideo", bytes "video"))
    ∷ (bytes "bat", (bytes "text/plain", bytes "document"))
    ∷ (bytes "bcpio", (bytes "application/x-bcpio", bytes "binary"))
    ∷ (bytes "bin", (bytes "application/octet-stream", bytes "binary"))
    ∷ (bytes "bmp", (bytes "image/bmp", bytes "image"))
    ∷ (bytes "c", (bytes "text/plain", bytes "document"))
    ∷ (bytes "cdf", (bytes "application/x-netcdf", bytes "binary"))
    ∷ (bytes "cpio", (bytes "application/x-cpio", bytes "binary"))
    ∷ (bytes "csh", (bytes "application/x-csh", bytes "binary"))
    ∷ (bytes "css", (bytes "text/css", bytes "document"))
    ∷ (bytes "csv", (bytes "text/csv", bytes "document"))
    ∷ (bytes "dll", (bytes "application/octet-stream", bytes "binary"))
    ∷ (bytes "doc", (bytes "application/msword", bytes "document"))
    ∷ (bytes "dot", (bytes "application/msword", bytes "document"))
    ∷ (bytes "dvi", (bytes "application/x-dvi", bytes "binary"))
    ∷ (bytes "eml", (bytes "message/rfc822", bytes "document"))
    ∷ (bytes "eps", (bytes "application/postscript", bytes "document"))
    ∷ (bytes "epub", (bytes "application/epub+zip", bytes "document"))
    ∷ (bytes "etx", (bytes "text/x-setext", bytes "document"))
    ∷ (bytes "exe", (bytes "application/octet-stream", bytes "binary"))
    ∷ (bytes "gif", (bytes "image/gif", bytes "image"))
    ∷ (bytes "gtar", (bytes "application/x-gtar", bytes "binary"))
    ∷ (bytes "h", (bytes "text/plain", bytes "document"))
    ∷ (bytes "hdf", (bytes "application/x-hdf", bytes "binary"))
    ∷ (bytes "htm", (bytes "text/html", bytes "document"))
    ∷ (bytes "html", (bytes "text/html", bytes "document"))
    ∷ (bytes "ico", (bytes "image/vnd.microsoft.icon", bytes "image"))
    ∷ (bytes "ief", (bytes "image/ief", bytes "image"))
    ∷ (bytes "iges", (bytes "model/iges", bytes "model"))
    ∷ (bytes "jpe", (bytes "image/jpeg", bytes "image"))
    ∷ (bytes "jpeg", (bytes "image/jpeg", bytes "image"))
    ∷ (bytes "jpg", (bytes "image/jpeg", bytes "image"))
    ∷ (bytes "js", (bytes "application/javascript", bytes "document"))
    ∷ (bytes "json", (bytes "application/json", bytes "document"))
    ∷ (bytes "ksh", (bytes "text/plain", bytes "document"))
    ∷ (bytes "latex", (bytes "application/x-latex", bytes "binary"))
    ∷ (bytes "m1v", (bytes "video/mpeg", bytes "video"))
    ∷ (bytes "m3u", (bytes "application/vnd.apple.mpegurl", bytes "audio"))
    ∷ (bytes "m3u8", (bytes "application/vnd.apple.mpegurl", bytes "audio"))
    ∷ (bytes "man", (bytes "application/x-troff-man", bytes "document"))
    ∷ (bytes "markdown", (bytes "text/markdown", bytes "document"))
    ∷ (bytes "md", (bytes "text/markdown", bytes "document"))
    ∷ (bytes "me", (bytes "application/x-troff-me", bytes "binary"))
    ∷ (bytes "mht", (bytes "message/rfc822", bytes "document"))
    ∷ (bytes "mhtml", (bytes "message/rfc822", bytes "document"))
    ∷ (bytes "mif", (bytes "application/x-mif", bytes "binary"))
    ∷ (bytes "mov", (bytes "video/quicktime", bytes "video"))
    ∷ (bytes "movie", (bytes "video/x-sgi-movie", bytes "video"))
    ∷ (bytes "mp2", (bytes "audio/mpeg", bytes "audio"))
    ∷ (bytes "mp3", (bytes "audio/mpeg", bytes "audio"))
    ∷ (bytes "mp4", (bytes "video/mp4", bytes "video"))
    ∷ (bytes "mpa", (bytes "video/mpeg", bytes "video"))
    ∷ (bytes "mpe", (bytes "video/mpeg", bytes "video"))
    ∷ (bytes "mpeg", (bytes "video/mpeg", bytes "video"))
    ∷ (bytes "mpg", (bytes "video/mpeg", bytes "video"))
    ∷ (bytes "ms", (bytes "application/x-troff-ms", bytes "binary"))
    ∷ (bytes "nc", (bytes "application/x-netcdf", bytes "binary"))
    ∷ (bytes "nws", (bytes "message/rfc822", bytes "document"))
    ∷ (bytes "o", (bytes "application/octet-stream", bytes "binary"))
    ∷ (bytes "obj", (bytes "application/octet-stream", bytes "model"))
    ∷ (bytes "oda", (bytes "application/oda", bytes "binary"))
    ∷ (bytes "p12", (bytes "application/x-pkcs12", bytes "binary"))
    ∷ (bytes "p7c", (bytes "application/pkcs7-mime", bytes "binary"))
    ∷ (bytes "pbm", (bytes "image/x-portable-bitmap", bytes "image"))
    ∷ (bytes "pdf", (bytes "application/pdf", bytes "document"))
    ∷ (bytes "pfx", (bytes "application/x-pkcs12", bytes "binary"))
    ∷ (bytes "pgm", (bytes "image/x-portable-graymap", bytes "image"))
    ∷ (bytes "pl", (bytes "text/plain", bytes "document"))
    ∷ (bytes "png", (bytes "image/png", bytes "image"))
    ∷ (bytes "pnm", (bytes "image/x-portable-anymap", bytes "image"))
    ∷ (bytes "pot", (bytes "application/vnd.ms-powerpoint", bytes "document"))
    ∷ (bytes "ppa", (bytes "application/vnd.ms-powerpoint", bytes "document"))
    ∷ (bytes "ppm", (bytes "image/x-portable-pixmap", bytes "image"))
    ∷ (bytes "pps", (bytes "application/vnd.ms-powerpoint", bytes "document"))
    ∷ (bytes "ppt", (bytes "application/vnd.ms-powerpoint", bytes "document"))
    ∷ (bytes "ps", (bytes "application/postscript", bytes "document"))
    ∷ (bytes "pwz", (bytes "application/vnd.ms-powerpoint", bytes "document"))
    ∷ (bytes "py", (bytes "text/x-python", bytes "document"))
    ∷ (bytes "pyc", (bytes "application/x-python-code", bytes "binary"))
    ∷ (bytes "pyo", (bytes "application/x-python-code", bytes "binary"))
    ∷ (bytes "qt", (bytes "video/quicktime", bytes "video"))
    ∷ (bytes "ra", (bytes "audio/x-pn-realaudio", bytes "audio"))
    ∷ (bytes "ram", (bytes "application/x-pn-realaudio", bytes "audio"))
    ∷ (bytes "ras", (bytes "image/x-cmu-raster", bytes "image"))
    ∷ (bytes "rdf", (bytes "application/xml", bytes "binary"))
    ∷ (bytes "rgb", (bytes "image/x-rgb", bytes "image"))
    ∷ (bytes "roff", (bytes "application/x-troff", bytes "binary"))
    ∷ (bytes "rtx", (bytes "text/richtext", bytes "document"))
    ∷ (bytes "sgm", (bytes "text/x-sgml", bytes "document"))
    ∷ (bytes "sgml", (bytes "text/x-sgml", bytes "document"))
    ∷ (bytes "sh", (bytes "application/x-sh", bytes "document"))
    ∷ (bytes "shar", (bytes "application/x-shar", bytes "binary"))
    ∷ (bytes "snd", (bytes "audio/basic", bytes "audio"))
    ∷ (bytes "so", (bytes "application/octet-stream", bytes "binary"))
    ∷ (bytes "src", (bytes "application/x-wais-source", bytes "binary"))
    ∷ (bytes "stl", (bytes "model/stl", bytes "model"))
    ∷ (bytes "sv4cpio", (bytes "application/x-sv4cpio", bytes "binary"))
    ∷ (bytes "sv4crc", (bytes "application/x-sv4crc", bytes "binary"))
    ∷ (bytes "svg", (bytes "image/svg+xml", bytes "image"))
    ∷ (bytes "swf", (bytes "application/x-shockwave-flash", bytes "binary"))
    ∷ (bytes "t", (bytes "application/x-troff", bytes "binary"))
    ∷ (bytes "tar", (bytes "application/x-tar", bytes "binary"))
    ∷ (bytes "tcl", (bytes "application/x-tcl", bytes "binary"))
    ∷ (bytes "tex", (bytes "application/x-tex", bytes "binary"))
    ∷ (bytes "texi", (bytes "application/x-texinfo", bytes "binary"))
    ∷ (bytes "texinfo", (bytes "application/x-texinfo", bytes "binary"))
    ∷ (bytes "tif", (bytes "image/tiff", bytes "image"))
    ∷ (bytes "tiff", (bytes "image/tiff", bytes "image"))
    ∷ (bytes "tr", (bytes "application/x-troff", bytes "binary"))
    ∷ (bytes "tsv", (bytes "text/tab-separated-values", bytes "document"))
    ∷ (bytes "txt", (bytes "text/plain", bytes "document"))
    ∷ (bytes "ustar", (bytes "application/x-ustar", bytes "binary"))
    ∷ (bytes "vcf", (bytes "text/x-vcard", bytes "document"))
    ∷ (bytes "wav", (bytes "audio/x-wav", bytes "audio"))
    ∷ (bytes "webm", (bytes "video/webm", bytes "video"))
    ∷ (bytes "wiz", (bytes "application/msword", bytes "document"))
    ∷ (bytes "wsdl", (bytes "application/xml", bytes "document"))
    ∷ (bytes "xbm", (bytes "image/x-xbitmap", bytes "image"))
    ∷ (bytes "xlb", (bytes "application/vnd.ms-excel", bytes "document"))
    ∷ (bytes "xls", (bytes "application/vnd.ms-excel", bytes "document"))
    ∷ (bytes "xml", (bytes "text/xml", bytes "document"))
    ∷ (bytes "xpdl", (bytes "application/xml", bytes "document"))
    ∷ (bytes "xpm", (bytes "image/x-xpixmap", bytes "image"))
    ∷ (bytes "xsl", (bytes "application/xml", bytes "document"))
    ∷ (bytes "xwd", (bytes "image/x-xwindowdump", bytes "image"))
    ∷ (bytes "zip", (bytes "application/zip", bytes "binary"))
    ∷ (bytes "cbr", (bytes "application/vnd.comicbook-rar", bytes "document"))
    ∷ (bytes "cbz", (bytes "application/vnd.comicbook+zip", bytes "document"))
    ∷ (bytes "flac", (bytes "audio/flac", bytes "audio"))
    ∷ (bytes "lbry", (bytes "application/x-ext-lbry", bytes "document"))
    ∷ (bytes "m4v", (bytes "video/m4v", bytes "video"))
    ∷ (bytes "mid", (bytes "audio/midi", bytes "audio"))
    ∷ (bytes "midi", (bytes "audio/midi", bytes "audio"))
    ∷ (bytes "mkv", (bytes "video/x-matroska", bytes "video"))
    ∷ (bytes "mobi", (bytes "application/x-mobipocket-ebook", bytes "document"))
    ∷ (bytes "oga", (bytes "audio/ogg", bytes "audio"))
    ∷ (bytes "ogv", (bytes "video/ogg", bytes "video"))
    ∷ (bytes "pct", (bytes "image/pict", bytes "image"))
    ∷ (bytes "pic", (bytes "image/pict", bytes "image"))
    ∷ (bytes "pict", (bytes "image/pict", bytes "image"))
    ∷ (bytes "prc", (bytes "application/x-mobipocket-ebook", bytes "document"))
    ∷ (bytes "rtf", (bytes "application/rtf", bytes "document"))
    ∷ (bytes "xul", (bytes "text/xul", bytes "document"))
    ∷ (bytes "wmv", (bytes "video/x-ms-wmv", bytes "video"))
    ∷ []

abbrev pub fallback : Option MimeType → Str → MimeType
fallback (some data_) ext = data_
fallback none ext = (bytes "application/x-ext-" ++ ext, bytes "binary")

-- `guessMimeType`
unfoldable pub guess_mime_type : Str → MimeType
unfolding normal lookup types
guess_mime_type ext =
    if str_eq ext []
    then (bytes "application/octet-stream", bytes "binary")
    else fallback (lookup (normal ext) types) (normal ext)
