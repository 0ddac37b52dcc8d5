-- ===== src/HttpUtils.antt =====
-- src/utils/httputils.cpp and src/inc/httputils.h: methods, the request context, URLs for
-- requests, response headers as libcurl hands them over; `xmlQuote` and `dom_cmp_name` of
-- src/utils/genut.cpp, and the texts of src/utils/statcodes.cpp.
pub mod Headers
pub mod Methods
pub mod Urls
pub mod Quote
pub mod StatusCodes
