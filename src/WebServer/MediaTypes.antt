-- ===== src/WebServer/MediaTypes.antt =====
-- The media types of webserver.cpp, by the extension of the file name.
use npupnp.Common.{suc, none, some, List, [], ◌∷◌, Bytes, codes, map, to_lower, drop, last_index_of}
use npupnp.HttpUtils.Methods.{lookup}

abbrev encoded_media_types : List (Bytes × Bytes)
encoded_media_types =
    (codes "aif", codes "audio/aiff")
    ∷ (codes "aifc", codes "audio/aiff")
    ∷ (codes "aiff", codes "audio/aiff")
    ∷ (codes "asf", codes "video/x-ms-asf")
    ∷ (codes "asx", codes "video/x-ms-asf")
    ∷ (codes "au", codes "audio/basic")
    ∷ (codes "avi", codes "video/msvideo")
    ∷ (codes "bmp", codes "image/bmp")
    ∷ (codes "css", codes "text/css")
    ∷ (codes "dcr", codes "application/x-director")
    ∷ (codes "dib", codes "image/bmp")
    ∷ (codes "dir", codes "application/x-director")
    ∷ (codes "dxr", codes "application/x-director")
    ∷ (codes "gif", codes "image/gif")
    ∷ (codes "hta", codes "text/hta")
    ∷ (codes "htm", codes "text/html")
    ∷ (codes "html", codes "text/html")
    ∷ (codes "jar", codes "application/java-archive")
    ∷ (codes "jfif", codes "image/pjpeg")
    ∷ (codes "jpe", codes "image/jpeg")
    ∷ (codes "jpeg", codes "image/jpeg")
    ∷ (codes "jpg", codes "image/jpeg")
    ∷ (codes "js", codes "application/x-javascript")
    ∷ (codes "kar", codes "audio/midi")
    ∷ (codes "m3u", codes "audio/mpegurl")
    ∷ (codes "mid", codes "audio/midi")
    ∷ (codes "midi", codes "audio/midi")
    ∷ (codes "mov", codes "video/quicktime")
    ∷ (codes "mp2v", codes "video/x-mpeg2")
    ∷ (codes "mp3", codes "audio/mpeg")
    ∷ (codes "mpe", codes "video/mpeg")
    ∷ (codes "mpeg", codes "video/mpeg")
    ∷ (codes "mpg", codes "video/mpeg")
    ∷ (codes "mpv", codes "video/mpeg")
    ∷ (codes "mpv2", codes "video/x-mpeg2")
    ∷ (codes "pdf", codes "application/pdf")
    ∷ (codes "pjp", codes "image/jpeg")
    ∷ (codes "pjpeg", codes "image/jpeg")
    ∷ (codes "plg", codes "text/html")
    ∷ (codes "pls", codes "audio/scpls")
    ∷ (codes "png", codes "image/png")
    ∷ (codes "qt", codes "video/quicktime")
    ∷ (codes "ram", codes "audio/x-pn-realaudio")
    ∷ (codes "rmi", codes "audio/mid")
    ∷ (codes "rmm", codes "audio/x-pn-realaudio")
    ∷ (codes "rtf", codes "application/rtf")
    ∷ (codes "shtml", codes "text/html")
    ∷ (codes "smf", codes "audio/midi")
    ∷ (codes "snd", codes "audio/basic")
    ∷ (codes "spl", codes "application/futuresplash")
    ∷ (codes "ssm", codes "application/streamingmedia")
    ∷ (codes "swf", codes "application/x-shockwave-flash")
    ∷ (codes "tar", codes "application/tar")
    ∷ (codes "tcl", codes "application/x-tcl")
    ∷ (codes "text", codes "text/plain")
    ∷ (codes "tif", codes "image/tiff")
    ∷ (codes "tiff", codes "image/tiff")
    ∷ (codes "txt", codes "text/plain")
    ∷ (codes "ulw", codes "audio/basic")
    ∷ (codes "wav", codes "audio/wav")
    ∷ (codes "wax", codes "audio/x-ms-wax")
    ∷ (codes "wm", codes "video/x-ms-wm")
    ∷ (codes "wma", codes "audio/x-ms-wma")
    ∷ (codes "wmv", codes "video/x-ms-wmv")
    ∷ (codes "wvx", codes "video/x-ms-wvx")
    ∷ (codes "xbm", codes "image/x-xbitmap")
    ∷ (codes "xml", codes "text/xml")
    ∷ (codes "xsl", codes "text/xml")
    ∷ (codes "z", codes "application/x-compress")
    ∷ (codes "zip", codes "application/zip")
    ∷ []

-- `get_content_type`, which always returns 0.
unfoldable pub get_content_type : Bytes → Bytes
unfolding lookup last_index_of to_lower
get_content_type filename = elim (last_index_of b'.' filename) [
  | none ↦ codes "application/octet-stream"
  | some dot ↦ elim (lookup (map to_lower (drop (suc dot) filename)) encoded_media_types) [
    | none ↦ codes "application/octet-stream"
    | some name ↦ name
  ]
]
